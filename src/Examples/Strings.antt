-- ===== src/Examples/Strings.antt =====
-- mbbsd/stuff.c: a path and a way out of its folder.
use pttoldstable.Base.{◌≡◌, ◌↔◌, refl, true, false, [], ◌∷◌}
use pttoldstable.Strings.{invalid_pname, invalid_loop, bad_sign, bad_byte, not_alnum}
use pttoldstable.Strings.PathNames.{IsPath, invalid_pname-IsPath}

-- "a/b.c" is let through, "a/../b" and "/a" are not.
tests :
    (invalid_pname (b'a' ∷ b'/' ∷ b'b' ∷ b'.' ∷ b'c' ∷ []) ≡ false)
    × (invalid_pname (b'a' ∷ b'/' ∷ b'.' ∷ b'.' ∷ b'/' ∷ b'b' ∷ []) ≡ true)
    × (invalid_pname (b'/' ∷ b'a' ∷ []) ≡ true)
unfolding invalid_pname invalid_loop bad_sign bad_byte not_alnum
tests = (refl, refl, refl)

invalid_pname-IsPath_example :
    (invalid_pname (b'a' ∷ b'/' ∷ b'b' ∷ []) ≡ false) ↔ IsPath (b'a' ∷ b'/' ∷ b'b' ∷ [])
invalid_pname-IsPath_example = invalid_pname-IsPath (b'a' ∷ b'/' ∷ b'b' ∷ [])

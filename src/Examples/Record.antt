-- ===== src/Examples/Record.antt =====
-- mbbsd/record.c: files of records at concrete inputs.
use pttoldstable.Base.{ℕ, ◌≡◌, refl, some, List, [], ◌∷◌, arith}
use pttoldstable.Record.{delete_records, delete_record}
use pttoldstable.Record.Laws.{delete_records-cut, delete_record_lem}

-- Three records of two bytes.
abbrev three : List ℕ
three = 1 ∷ 2 ∷ 3 ∷ 4 ∷ 5 ∷ 6 ∷ []

-- Two records are to go from the first on: the second stays, the first and the third are lost.
delete_records-cut_example : delete_records (some three) 2 1 2 ≡ some (3 ∷ 4 ∷ [])
delete_records-cut_example =
    delete_records-cut [] (1 ∷ 2 ∷ []) (3 ∷ 4 ∷ 5 ∷ 6 ∷ []) 2 1 2 (omega arith) refl refl
      (omega arith)

delete_record_lem_example : delete_record (some three) 2 2 ≡ some (1 ∷ 2 ∷ 5 ∷ 6 ∷ [])
delete_record_lem_example = delete_record_lem (1 ∷ 2 ∷ []) (3 ∷ 4 ∷ []) (5 ∷ 6 ∷ []) 2 2 refl refl

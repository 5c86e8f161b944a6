-- ===== src/Record.antt =====
-- mbbsd/record.c: files of records of a fixed size. A file is the list of its bytes, or `none` where
-- `open` fails. Locks, and failures of calls other than `open`, are left out.
pub mod Copy
pub mod Laws
use pttoldstable.Base.{
  ℕ, zero, suc, ◌+◌, ◌-◌, ◌*◌, ◌/◌, ◌≤◌, min, Bool, true, false, ◌&&◌, Option, none, some, List, [],
  ◌∷◌, ◌++◌, ltb, leb, ◌==◌, if◌then◌else◌, length, take, drop, replicate,
}

abbrev pub bufsize : ℕ
bufsize = 512

-- `lseek` to `pos` and `read` of at most `n` bytes.
unfoldable pub pread : ℕ → ℕ → List ℕ → List ℕ
pread pos n f = take n (drop pos f)

-- `lseek` to `pos` and `write`; a gap after the end of the file is filled with zeros.
unfoldable pub pwrite : ℕ → List ℕ → List ℕ → List ℕ
pwrite pos chunk f =
    take pos (f ++ replicate (pos - length f) 0) ++ (chunk ++ drop (pos + length chunk) f)

unfoldable pub get_num_records : Option (List ℕ) → ℕ → ℕ
get_num_records none size = 0
get_num_records (some f) size = length f / size

-- `none` is the result -1; otherwise the record that is read.
unfoldable pub get_record : Option (List ℕ) → ℕ → ℕ → Option (List ℕ)
unfolding pread
get_record none size id = none
get_record (some f) size id =
    if leb 1 id && length (pread (size * (id - 1)) size f) == size
    then some (pread (size * (id - 1)) size f)
    else none

-- The bytes read, with the number of whole records.
unfoldable pub get_records : Option (List ℕ) → ℕ → ℕ → ℕ → Option (ℕ × List ℕ)
unfolding pread
get_records none size id number = none
get_records (some f) size id number =
    if ltb id 1
    then none
    else let r = pread (size * (id - 1)) (size * number) f in some (length r / size, r)

-- `O_CREAT`: a file that is missing is created empty. `denied` stands for an `open` that fails.
unfoldable pub substitute_record : Bool → List ℕ → List ℕ → ℕ → ℕ → Option (List ℕ)
unfolding pwrite
substitute_record denied f rptr size id =
    if ltb id 1 then none else if denied then none else some (pwrite (size * (id - 1)) rptr f)

-- `while (d < readsize && (c = read(fi, abuf, BUFSIZE)) > 0)`; the fuel counts the rounds.
unfoldable pub copy_loop : ℕ → ℕ → ℕ → ℕ → ℕ → List ℕ → List ℕ
unfolding pread pwrite
copy_loop zero d readsize ri wo f = f
copy_loop (suc k) d readsize ri wo f =
    let chunk = pread ri bufsize f in
    let c = length chunk in
    let rest = copy_loop k (d + c) readsize (ri + c) (wo + c) (pwrite wo chunk f) in
    if ltb d readsize && ltb 0 c then rest else f

-- `ftruncate(fo, st.st_size - size * num)`, which fails at a negative length.
unfoldable pub cut_file : ℕ → ℕ → List ℕ → List ℕ
cut_file st_size gone f = if ltb st_size gone then f else take (st_size - gone) f

-- With `offset = size * (id - 1)`: `locksize < 0` is `st_size + size < size * id`, and
-- `readsize > 0` is `size * num + size * id < st_size + size`. The fuel is the number of bytes.
unfoldable pub delete_records : Option (List ℕ) → ℕ → ℕ → ℕ → Option (List ℕ)
unfolding copy_loop cut_file
delete_records none size id num = none
delete_records (some f) size id num =
    let st_size = length f in
    let readsize = st_size + size - size * id - size * num in
    if ltb (st_size + size) (size * id)
    then none
    else (let copied =
          if ltb (size * num + size * id) (st_size + size)
          then copy_loop (suc st_size) 0 readsize (size * id) (size * id - size) f
          else f in
        some (cut_file st_size (size * num) copied))

unfoldable pub delete_record : Option (List ℕ) → ℕ → ℕ → Option (List ℕ)
delete_record f size id = delete_records f size id 1

-- The result and the new contents; `none` is an `open` that fails.
unfoldable pub append_record : Option (List ℕ) → List ℕ → ℕ → Option (ℕ × List ℕ)
unfolding pwrite
append_record none item size = none
append_record (some f) item size =
    let index = length f / size in some (index + 1, pwrite (index * size) item f)

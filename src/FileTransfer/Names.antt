-- ===== src/FileTransfer/Names.antt =====
-- Names that arrive from the network: `safe_file_name` and `safe_relative_path`, over
-- std::filesystem::path on a POSIX system (`/` separates, no drive names).
pub mod Safety
pub mod Relative
use hyper_link.Base.{
  ℕ, Bool, true, false, ◌||◌, ◌&&◌, List, [], ◌∷◌, ◌++◌, Option, none, some, Text, codes, text_eq,
  is_empty, ◌==◌, if◌then◌else◌, break_at, Error, runtime_error, Result, ok, err,
}

abbrev pub slash : ℕ
slash = b'/'

abbrev pub dot : Text
dot = codes "."

abbrev pub dot_dot : Text
dot_dot = codes ".."

-- `path::filename().string()`: what stands behind the last separator. `last` is the current part.
unfoldable pub filename_from : Text → Text → Text
filename_from last [] = last
filename_from last (c ∷ s) = filename_from (if c == slash then [] else last ++ c ∷ []) s

unfoldable pub filename : Text → Text
unfolding filename_from
filename name = filename_from [] name

-- `path::parent_path()`: what stands before the last separator, without separators at its end; the
-- root is its own parent. `seen` is the text so far and `cut` its part before the last separator.
unfoldable pub cut_last : Text → Option Text → Text → Option Text
cut_last seen cut [] = cut
cut_last seen cut (c ∷ s) = cut_last (seen ++ c ∷ []) (if c == slash then some seen else cut) s

unfoldable pub trim_slashes : Text → Text
trim_slashes [] = []
trim_slashes (c ∷ s) =
    let rest = trim_slashes s in if c == slash && is_empty rest then [] else c ∷ rest

unfoldable pub parent_path : Text → Text
unfolding cut_last trim_slashes
parent_path path = elim (cut_last [] none path) [
  | none ↦ []
  | some front ↦ let parent = trim_slashes front in if is_empty parent then slash ∷ [] else parent
]

unfoldable pub bad_file_name : Error
bad_file_name = runtime_error (codes "invalid incoming file name")

unfoldable pub bad_relative_path : Error
bad_relative_path = runtime_error (codes "invalid incoming relative path")

unfoldable pub is_special : Text → Bool
is_special part = text_eq part dot || text_eq part dot_dot || is_empty part

unfoldable pub safe_file_name : Text → Result Text
safe_file_name name =
    let path = filename name in if is_special path then err bad_file_name else ok path

-- `path::is_absolute()`.
unfoldable pub is_absolute : Text → Bool
is_absolute [] = false
is_absolute (c ∷ s) = c == slash

-- The elements of a relative path, as its iterator gives them: the runs between separators, and one
-- empty element at the end if the path ends with a separator.
unfoldable pub parts_from : Text → Text → List Text
parts_from current [] = current ∷ []
parts_from current (c ∷ s) =
    let more = parts_from (current ++ c ∷ []) s in
    let next = parts_from [] s in
    if c == slash then if is_empty current then next else current ∷ next else more

unfoldable pub any_special : List Text → Bool
any_special [] = false
any_special (part ∷ parts) = is_special part || any_special parts

unfoldable pub safe_relative_path : Text → Result Text
safe_relative_path name =
    if is_empty name || is_absolute name
    then err bad_relative_path
    else if any_special (parts_from [] name)
    then err bad_relative_path
    else ok name

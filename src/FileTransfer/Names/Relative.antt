-- ===== src/FileTransfer/Names/Relative.antt =====
-- `safe_relative_path`: the paths of a directory transfer stay below the output directory.
use hyper_link.Base.{
  ◌≡◌, refl, ◌↔◌, ◌∙◌, sym, ap, arith, true, false, Bool-cases, or_false, inl, inr, ◌||◌, List, [],
  ◌∷◌, ◌++◌, append_assoc, Text, All, All-append, Lacks, text_eq, text_eq_iff, is_empty, ◌==◌,
  if◌then◌else◌, ok,
}
use mathlib.Core.List.{reverse, reverse-cons}
use hyper_link.FileTransfer.Names.{
  slash, dot, dot_dot, is_special, is_absolute, parts_from, any_special, safe_relative_path,
}
use hyper_link.FileTransfer.Names.Safety.{IsPlain, IsPlain-iff}

-- The directory that one part of a path leads to, from a directory given by its ancestors, nearest first:
-- an empty part and `.` stay, `..` goes up, and any other part goes down.
unfoldable pub enter : List Text → Text → List Text
enter dirs part =
    if is_empty part || text_eq part dot
    then dirs
    else if text_eq part dot_dot
    then elim dirs [ [] ↦ [] | dir ∷ up ↦ up ]
    else part ∷ dirs

-- The same for a text that begins with a part, of which `current` was read.
unfoldable pub walk : List Text → Text → Text → List Text
walk dirs current [] = enter dirs current
walk dirs current (c ∷ s) =
    let inside = walk (enter dirs current) [] s in
    let on = walk dirs (current ++ c ∷ []) s in if c == b'/' then inside else on

-- What `directory / path` names: a path that begins with a separator leaves the directory for the root,
-- and any other is followed from the directory. This is by the text alone: no symbolic link is followed.
unfoldable pub resolve : List Text → Text → List Text
resolve dirs [] = dirs
resolve dirs (c ∷ s) =
    let above = walk [] [] s in
    let below = walk dirs [] (c ∷ s) in if c == b'/' then above else below

-- Every part is free of separators.
parts_from-Lacks :
    (current s : Text) → Lacks slash current → All (Lacks slash) (parts_from current s)
unfolding parts_from
parts_from-Lacks current [] l = (l, tt)
parts_from-Lacks current (c ∷ s) l = elim (Bool-cases (c == slash)) [
  | inl hit ↦ elim (Bool-cases (is_empty current)) [
    | inl none_yet ↦ rw (hit, none_yet) (parts_from-Lacks [] s tt)
    | inr some_yet ↦ rw (hit, some_yet) (l, parts_from-Lacks [] s tt)
  ]
  | inr miss ↦
      rw miss
        (parts_from-Lacks (current ++ c ∷ []) s (All-append _ current (c ∷ []) l (ground arith)))
]

any_special-IsPlain :
    (parts : List Text) → All (Lacks slash) parts → (any_special parts ≡ false) ↔ All IsPlain parts
unfolding any_special
any_special-IsPlain [] _ = (λ _. tt, λ _. refl)
any_special-IsPlain (part ∷ parts) (l, ls) =
    let (plain, special) = IsPlain-iff part l in
    let (plains, specials) = any_special-IsPlain parts ls in
    let (split, join) = or_false (is_special part) (any_special parts) in
    (λ h. (plain (split h).0, plains (split h).1), λ h. join (special h.0, specials h.1))

-- A plain part goes down.
enter_down : (dirs : List Text) (part : Text) → IsPlain part → enter dirs part ≡ part ∷ dirs
unfolding enter
enter_down dirs [] h = absurd (h.no_gap refl)
enter_down dirs (c ∷ s) h =
    ground (arith, text_eq_iff (c ∷ s) dot, text_eq_iff (c ∷ s) dot_dot, h.no_dot, h.no_dot_dot)

enter_stays : (dirs : List Text) (part : Text) → is_empty part ≡ true → enter dirs part ≡ dirs
unfolding enter
enter_stays dirs part h = ground (arith)

-- The walk enters the parts, if these are plain.
abbrev Walks : Text → Text → Type 0
Walks current s =
    (dirs : List Text)
    → All IsPlain (parts_from current s)
    → walk dirs current s ≡ reverse (parts_from current s) ++ dirs

walk_between :
    (current s : Text) (dirs : List Text)
    → Walks [] s
    → All IsPlain (current ∷ parts_from [] s)
    → walk (enter dirs current) [] s ≡ reverse (current ∷ parts_from [] s) ++ dirs
walk_between current s dirs walks (h, hs) =
    ap (λ x. walk x [] s) (enter_down dirs current h)
    ∙ walks (current ∷ dirs) hs
    ∙ sym (append_assoc (reverse (parts_from [] s)) (current ∷ []) dirs)
    ∙ ap (λ x. x ++ dirs) (sym (reverse-cons current (parts_from [] s)))

walk-parts_from : (current s : Text) → Walks current s
unfolding walk parts_from
walk-parts_from current [] = λ dirs (h, _). enter_down dirs current h
walk-parts_from current (c ∷ s) = elim (Bool-cases (c == slash)) [
  | inl hit ↦ elim (Bool-cases (is_empty current)) [
    | inl none_yet ↦
        rw (hit, none_yet)
          (λ dirs h.
            ap (λ x. walk x [] s) (enter_stays dirs current none_yet) ∙ walk-parts_from [] s dirs h)
    | inr some_yet ↦ rw (hit, some_yet) (λ dirs. walk_between current s dirs (walk-parts_from [] s))
  ]
  | inr miss ↦ rw miss (walk-parts_from (current ++ c ∷ []) s)
]

safe_relative_path_accepts :
    (name path : Text)
    → (safe_relative_path name ≡ ok path) ↔ (
        (name ≡ path)
        × (is_empty name || is_absolute name ≡ false)
        × (any_special (parts_from [] name) ≡ false))
unfolding safe_relative_path
safe_relative_path_accepts name path =
    (λ h. ground arith, λ h. rw (h.1, h.2, safe_relative_path) (ap ok h.0))

-- `safe_relative_path` accepts exactly the names that are neither empty nor absolute and have only
-- plain parts, and returns them unchanged.
pub safe_relative_path-IsPlain :
    (name path : Text)
    → (safe_relative_path name ≡ ok path) ↔ (
        (name ≡ path)
        × (is_empty name || is_absolute name ≡ false)
        × All IsPlain (parts_from [] name))
safe_relative_path-IsPlain name path = (accepts, returns)
  where
    plain : (any_special (parts_from [] name) ≡ false) ↔ All IsPlain (parts_from [] name)
    plain = any_special-IsPlain _ (parts_from-Lacks [] name tt)

    accepts :
        safe_relative_path name ≡ ok path
        → (name ≡ path)
          × (is_empty name || is_absolute name ≡ false)
          × All IsPlain (parts_from [] name)
    accepts h =
        let (e, start, parts) = (safe_relative_path_accepts name path).0 h in
        (e, start, plain.0 parts)

    returns :
        (name ≡ path)
          × (is_empty name || is_absolute name ≡ false)
          × All IsPlain (parts_from [] name)
        → safe_relative_path name ≡ ok path
    returns h = (safe_relative_path_accepts name path).1 (h.0, h.1, plain.1 h.2)

resolve_relative :
    (name : Text) (dirs : List Text)
    → is_empty name || is_absolute name ≡ false
    → All IsPlain (parts_from [] name)
    → resolve dirs name ≡ reverse (parts_from [] name) ++ dirs
unfolding resolve is_absolute
resolve_relative [] dirs start parts = absurd (ground arith)
resolve_relative (c ∷ s) dirs start parts =
    let relative : c == slash ≡ false = ground arith in
    rw relative (walk-parts_from [] (c ∷ s) dirs parts)

-- Joined to any directory, a path that `safe_relative_path` accepts names what its parts lead down to, one
-- below the other: it neither leaves the directory for the root nor goes up. This is by the text of the
-- path, without symbolic links.
pub resolve-safe_relative_path :
    (name path : Text) (dirs : List Text)
    → safe_relative_path name ≡ ok path
    → resolve dirs path ≡ reverse (parts_from [] path) ++ dirs
resolve-safe_relative_path name path dirs h =
    let (e, start, parts) = (safe_relative_path-IsPlain name path).0 h in
    rw (← e) (resolve_relative name dirs start parts)

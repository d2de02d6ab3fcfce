-- ===== src/Fix/Listing.antt =====
-- cmd/fix/main.go: listGoFiles against the plain listing of a tree.
use hal_agent_operator.Base.{
  ℕ, zero, suc, ◌≡◌, refl, ap, ◌≤◌, Text, List, [], ◌∷◌, ◌++◌, append_assoc, append-nil, Bool, true,
  ◌&&◌, ◌||◌, false, leb, ok, length, length-append, take, dot, arith, if◌then◌else◌, Bool-cases,
  inl, inr,
}
use hal_agent_operator.Fix.GoFiles.{
  Node, file, dir, locked, Entries, end, entry, Walk, going, stopped, is_skipped, is_go, child_path,
  node_name, max_tree_entries, visit, visit_all, visit_file, add_file, walked, list_go_files, after,
}

-- Every directory that the walk enters can be read.
unfoldable mutual
  pub is_readable : Node → Bool
  is_readable (file name) = true
  is_readable (locked name e) = is_skipped name
  is_readable (dir name entries) = is_skipped name || are_readable entries

  pub are_readable : Entries → Bool
  are_readable end = true
  are_readable (entry node entries) = is_readable node && are_readable entries

-- The .go files of a tree, with no bound, in the order of the walk.
unfoldable mutual
  pub go_files : Text → Node → List Text
  go_files path (file name) = if is_go name then path ∷ [] else []
  go_files path (locked name e) = []
  go_files path (dir name entries) =
      let inside = go_files_in path entries in if is_skipped name then [] else inside

  pub go_files_in : Text → Entries → List Text
  go_files_in parent end = []
  go_files_in parent (entry node entries) =
      go_files (child_path parent (node_name node)) node ++ go_files_in parent entries

take_all : (n : ℕ) (l : List Text) → length l ≤ n → take n l ≡ l
take_all zero [] h = refl
take_all zero (x ∷ l) h = absurd (omega arith)
take_all (suc n) [] h = refl
take_all (suc n) (x ∷ l) h = rw (take_all n l (omega arith))

take_first : (n : ℕ) (l r : List Text) → n ≤ length l → take n (l ++ r) ≡ take n l
take_first zero l r h = refl
take_first (suc n) [] r h = absurd (omega arith)
take_first (suc n) (x ∷ l) r h = rw (take_first n l r (omega arith))

-- A walk that has listed `files` so far, where the limit lets it.
abbrev pub bounded : ℕ → List Text → Walk
bounded n files = if leb n (length files) then stopped (take n files) else going files

walked-bounded : (n : ℕ) (files : List Text) → walked (bounded n files) ≡ ok (take n files)
unfolding walked
walked-bounded n files = elim (Bool-cases (leb n (length files))) [
  | inl full ↦ rw full refl
  | inr short ↦ rw (short, take_all n files (ground arith)) refl
]

leb_append : (n : ℕ) (l r : List Text) → leb n (length l) ≡ true → leb n (length (l ++ r)) ≡ true
leb_append n l r h = ground (arith, length-append l r)

one_more :
    (files : List Text) (path : Text)
    → leb max_tree_entries (length files) ≡ false
    → length (files ++ path ∷ []) ≤ max_tree_entries
one_more files path h = ground (arith, length-append files (path ∷ []))

skip_or : {b c : Bool} → b ≡ false → (b || c) ≡ true → c ≡ true
skip_or {b = b} {c = c} f h = ground arith

both : {b c : Bool} → (b && c) ≡ true → (b ≡ true) × (c ≡ true)
both {b = b} {c = c} h = ground arith

-- A walk goes on where it stopped.
after-bounded :
    (n : ℕ) (f : List Text → Walk) (files more : List Text)
    → (leb n (length files) ≡ false → f files ≡ bounded n (files ++ more))
    → after f (bounded n files) ≡ bounded n (files ++ more)
after-bounded n f files more h = elim (Bool-cases (leb n (length files))) [
  | inl full ↦ rw (full, leb_append n files more full, take_first n files more (ground arith)) refl
  | inr short ↦ rw short (h short)
]

visit_file-bounded :
    (path name : Text) (files : List Text)
    → leb max_tree_entries (length files) ≡ false
    → visit_file path name files
      ≡ bounded max_tree_entries (files ++ (if is_go name then path ∷ [] else []))
unfolding visit_file add_file
visit_file-bounded path name files h = elim (Bool-cases (is_go name)) [
  | inl t ↦ rw (t, take_all max_tree_entries (files ++ path ∷ []) (one_more files path h)) refl
  | inr f ↦ rw (f, append-nil files, h) refl
]

mutual
  unfolding visit visit_all go_files go_files_in is_readable are_readable

  visit-bounded :
      (path : Text) (node : Node) (files : List Text)
      → is_readable node ≡ true
      → leb max_tree_entries (length files) ≡ false
      → visit path node files ≡ bounded max_tree_entries (files ++ go_files path node)
  visit-bounded path (file name) files r h = visit_file-bounded path name files h
  visit-bounded path (locked name e) files r h = rw (r, append-nil files, h) refl
  visit-bounded path (dir name entries) files r h = elim (Bool-cases (is_skipped name)) [
    | inl t ↦ rw (t, append-nil files, h) refl
    | inr f ↦ rw f (visit_all-bounded path entries files (skip_or f r) h)
  ]

  visit_all-bounded :
      (parent : Text) (entries : Entries) (files : List Text)
      → are_readable entries ≡ true
      → leb max_tree_entries (length files) ≡ false
      → visit_all parent entries files
        ≡ bounded max_tree_entries (files ++ go_files_in parent entries)
  visit_all-bounded parent end files r h = rw (append-nil files, h) refl
  visit_all-bounded parent (entry node entries) files r h =
      let path = child_path parent (node_name node) in
      let listed = go_files path node in
      rw
        (
          visit-bounded path node files (both r).0 h,
          after-bounded max_tree_entries (λ (more : List Text). visit_all parent entries more)
              (files ++ listed) (go_files_in parent entries)
              (λ short. visit_all-bounded parent entries (files ++ listed) (both r).1 short),
        )
        (ap (bounded max_tree_entries) (append_assoc files listed (go_files_in parent entries)))

-- Where every directory on the way can be read, the tree given to the model is the first
-- max_tree_entries of the repository's .go files outside .git, vendor and node_modules, in the order
-- of the walk: ending the walk at the limit loses none of them and adds none.
pub list_go_files-take :
    (root : Node)
    → is_readable root ≡ true
    → list_go_files (ok root) ≡ ok (take max_tree_entries (go_files dot root))
unfolding list_go_files
list_go_files-take root r =
    rw (visit-bounded dot root [] r refl) (walked-bounded max_tree_entries (go_files dot root))

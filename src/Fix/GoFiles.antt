-- ===== src/Fix/GoFiles.antt =====
-- cmd/fix/main.go: listGoFiles, on a tree of directory entries in the order of filepath.WalkDir.
use hal_agent_operator.Base.{
  ℕ, Text, List, [], ◌∷◌, ◌++◌, Bool, ◌||◌, leb, Error, Result, ok, err, utf8, length, text_eq,
  has_prefix, dot, slash, if◌then◌else◌,
}
use mathlib.Core.List.{reverse}

-- `locked` is a directory whose entries cannot be read.
mutual
  pub data Node : Type 0 where
    file : Text → Node
    dir : Text → Entries → Node
    locked : Text → Error → Node

  pub data Entries : Type 0 where
    end : Entries
    entry : Node → Entries → Entries

abbrev pub max_tree_entries : ℕ
max_tree_entries = 400

-- Where the walk is: it goes on, was ended by fs.SkipAll, or failed.
pub data Walk : Type 0 where
  going : List Text → Walk
  stopped : List Text → Walk
  broken : Error → Walk

abbrev pub node_name : Node → Text
node_name (file name) = name
node_name (dir name entries) = name
node_name (locked name e) = name

-- The path relative to the root, whose own is `.`.
abbrev pub child_path : Text → Text → Text
child_path parent name = if text_eq parent dot then name else parent ++ (slash ++ name)

abbrev pub is_skipped : Text → Bool
is_skipped name =
    text_eq name (utf8 ".git") || text_eq name (utf8 "vendor") || text_eq name (utf8 "node_modules")

-- strings.HasSuffix(name, ".go")
abbrev pub is_go : Text → Bool
is_go name = has_prefix (reverse name) (utf8 "og.")

unfoldable pub add_file : Text → List Text → Walk
add_file path files =
    let more = files ++ path ∷ [] in
    if leb max_tree_entries (length more) then stopped more else going more

-- The callback of WalkDir on a file.
unfoldable pub visit_file : Text → Text → List Text → Walk
visit_file path name files = if is_go name then add_file path files else going files

-- What the walk does after an entry.
abbrev pub after : (List Text → Walk) → Walk → Walk
after rest (going files) = rest files
after rest (stopped files) = stopped files
after rest (broken e) = broken e

unfoldable mutual
  pub visit : Text → Node → List Text → Walk
  visit path (file name) files = visit_file path name files
  visit path (locked name e) files = if is_skipped name then going files else broken e
  visit path (dir name entries) files =
      let inside = visit_all path entries files in if is_skipped name then going files else inside

  pub visit_all : Text → Entries → List Text → Walk
  visit_all parent end files = going files
  visit_all parent (entry node entries) files =
      after (λ (more : List Text). visit_all parent entries more)
        (visit (child_path parent (node_name node)) node files)

unfoldable pub walked : Walk → Result (List Text)
walked (going files) = ok files
walked (stopped files) = ok files
walked (broken e) = err e

-- `root` is the root's entry, or the error of its os.Lstat.
unfoldable pub list_go_files : Result Node → Result (List Text)
list_go_files (err e) = err e
list_go_files (ok root) = walked (visit dot root [])

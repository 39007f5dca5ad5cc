-- ===== src/Tests/Trees.antt =====
-- A JSON library whose items are trees, which parses and prints as it is told.
use xiaozhi.Base.{Option, none, some, refl}
use xiaozhi.Base.Int.{ℤ}
use xiaozhi.Base.Strings.{Bytes}
use xiaozhi.Protocol.{Json}
use xiaozhi.Protocol.Laws.{Laws, or_added, same_key}

pub data Tree : Type 0 where
  word : Bytes → Tree
  int : ℤ → Tree
  object : Tree
  field : Tree → Bytes → Tree → Tree

abbrev pub tree_get : Tree → Bytes → Option Tree
tree_get (field tree name value) key = or_added (tree_get tree key) (same_key name key) value
tree_get _ key = none

abbrev pub tree_string : Tree → Option Bytes
tree_string (word s) = some s
tree_string _ = none

abbrev pub tree_number : Tree → Option ℤ
tree_number (int n) = some n
tree_number _ = none

abbrev pub trees : (Bytes → Option Tree) → Bytes → Json Tree
trees parse printed = record {
  parse = parse;
  get = tree_get;
  string = tree_string;
  number = tree_number;
  create_object = object;
  add_string = λ tree name s. field tree name (word s);
  add_number = λ tree name n. field tree name (int n);
  add_item = λ tree name child. field tree name child;
  print = λ tree. some printed;
}

pub trees-Laws : (parse : Bytes → Option Tree) (printed : Bytes) → Laws (trees parse printed)
trees-Laws parse printed = record {
  text = word;
  int = int;
  string-text = λ s. refl;
  string-int = λ n. refl;
  number-int = λ n. refl;
  get-create_object = λ key. refl;
  get-add_string = λ tree name s key. refl;
  get-add_number = λ tree name n key. refl;
  get-add_item = λ tree name child key. refl;
}

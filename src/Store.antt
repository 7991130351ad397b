-- ===== src/Store.antt =====
-- The storage interfaces of store.go (Store, Reader, Writer), over any state `S`.
pub mod Attribute
pub mod Demo
pub mod Dynamo
pub mod Sample
use contractdb.Base.{Bool, Option, List, Bytes}
use contractdb.Item.{Item, Entry}

-- A result or an error; the program logs the error and looks at nothing else of it.
pub data Result (A : Type 0) : Type 0 where
  ok : A → Result A
  failed : Result A

-- What a call of List hands to its callback, page by page, and whether an error ends it.
pub record Pages : Type 0 where
  pub pages : List (List Entry)
  pub broken : Bool

pub record Reader (S : Type 0) : Type 0 where
  pub list : S → Pages
  pub query_index : S → Bytes → Bytes → Result (List Entry)

-- A write returns whether it succeeded, and the state that it left.
pub record Writer (S : Type 0) : Type 0 where
  pub put : S → Bytes → Item → Bool × S
  pub delete : S → Bytes → Bool × S

-- A store, with the wider interfaces that its dynamic type has.
pub record Store (S : Type 0) : Type 0 where
  pub get : S → Bytes → Result Item
  pub reader : Option (Reader S)
  pub writer : Option (Writer S)

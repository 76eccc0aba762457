-- ===== src/Types/Store.antt =====
-- src/types.rs: the store that interns types. A `&mut self` method returns the new store.
use rustc_codegen_c.Prelude.{◌%◌, ◌^◌, List, [], ◌∷◌, ◌++◌, Option, none, some, length, get_elem?}
use rustc_codegen_c.Prelude.Dict.{get as dict_get, insert}
use rustc_codegen_c.Prelude.Outcome.{Outcome, expect}
use rustc_codegen_c.Types.Kind.{TypeRef, CTypeKind, CTypeKind-discrete}

pub record TypeStore : Type 0 where
  pub types : List CTypeKind
  pub index : List (CTypeKind × TypeRef)

unfoldable pub new : TypeStore
new = record { types = []; index = [] }

-- `self.index.get(&kind)`
abbrev pub index_of : TypeStore → CTypeKind → Option TypeRef
index_of s kind = dict_get CTypeKind-discrete s.index kind

-- The rest of `intern`, for a kind that the index does not know.
abbrev pub add_type : TypeStore → CTypeKind → TypeStore × TypeRef
add_type s kind =
    let type_ref = length s.types % 2 ^ 32 in
    (
      record {
        types = s.types ++ kind ∷ [];
        index = insert CTypeKind-discrete s.index kind type_ref;
      },
      type_ref,
    )

unfoldable pub intern : TypeStore → CTypeKind → TypeStore × TypeRef
intern s kind = elim (index_of s kind) [ some existing ↦ (s, existing) | none ↦ add_type s kind ]

-- `&self.types[ty.0]`: out of bounds is a panic.
unfoldable pub get : TypeStore → TypeRef → Outcome CTypeKind
get s ty = expect (get_elem? s.types ty)

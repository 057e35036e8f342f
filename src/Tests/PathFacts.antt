-- ===== src/Tests/PathFacts.antt =====
-- The theorems on paths, references and hashes at concrete inputs.
use mapit.Base.{codes, [], ◌∷◌, if◌then◌else◌, ◌≡◌, ◌≢◌, ◌↔◌, refl, subst, str_eq}
use mapit.Messages.{ObjectReference, null_ref}
use mapit.Paths.{prepare_path}
use mapit.Paths.Canonical.{components, canonical, prepare_path-canonical}
use mapit.Paths.Names.{prepare_path-eq_iff}
use mapit.TreeHash.{hash_tree}
use mapit.TreeHash.Reorder.{swap, hash_tree-Reorder}
use mapit.Serializer.Transient
use mapit.Serializer.Disk.{path_eq, objectid_to_workspace_fs_path}
use mapit.Workspace.{root_ref, is_null, get_tree_by_ref, object_reference_for_path}
use mapit.Workspace.Delete.{store_entity}
use mapit.Workspace.Resolve.{
  descend, object_reference_for_path-descend, object_reference_for_path-below,
}
use mapit.Tests.Data.{codec, filled}

prepare_path-canonical_example :
    prepare_path (47 ∷ codes "a//b") ≡ canonical (components (47 ∷ codes "a//b"))
prepare_path-canonical_example = prepare_path-canonical 47 (codes "a//b")

prepare_path-eq_iff_example :
    (prepare_path (47 ∷ codes "a//b") ≡ prepare_path (97 ∷ codes "/b"))
    ↔ (components (47 ∷ codes "a//b") ≡ components (97 ∷ codes "/b"))
prepare_path-eq_iff_example = prepare_path-eq_iff 47 97 (codes "a//b") (codes "/b")

abbrev one : ObjectReference
one = record { id = codes "1"; path = [] }

abbrev two : ObjectReference
two = record { id = codes "2"; path = [] }

a_ne_b : codes "a" ≢ codes "b"
unfolding str_eq
a_ne_b e = subst (λ s. if str_eq (codes "a") s then Unit {0} else ⊥) e tt

hash_tree-Reorder_example :
    hash_tree codec (record { refs = (codes "a", one) ∷ (codes "b", two) ∷ [] })
    ≡ hash_tree codec (record { refs = (codes "b", two) ∷ (codes "a", one) ∷ [] })
hash_tree-Reorder_example =
    hash_tree-Reorder codec ((codes "a", one) ∷ (codes "b", two) ∷ [])
      ((codes "b", two) ∷ (codes "a", one) ∷ []) (swap (codes "a") (codes "b") one two [] a_ne_b)

object_reference_for_path-descend_example :
    object_reference_for_path codec (97 ∷ codes "/b") filled ≡ (
      if is_null (root_ref filled)
      then null_ref
      else descend codec filled.disk (root_ref filled) (components (97 ∷ codes "/b")))
object_reference_for_path-descend_example =
    object_reference_for_path-descend codec 97 (codes "/b") filled

object_reference_for_path-below_example :
    object_reference_for_path codec (97 ∷ codes "/b") filled
    ≡ object_reference_for_path codec (97 ∷ []) filled
unfolding components object_reference_for_path get_tree_by_ref store_entity path_eq
    objectid_to_workspace_fs_path Transient.get_tree_transient
object_reference_for_path-below_example =
    object_reference_for_path-below codec filled (97, []) (97, codes "/b") (codes "b" ∷ []) refl
      refl

-- ===== src/Ir/Validation/Index.antt =====
-- What `_build_index` of src/ucf/ir/validation.py accepts and builds.
use ucf.Prelude.Dict.{has, put, put_fresh}
use ucf.Prelude.{
  ℕ, suc, String, ◌≡◌, refl, sym, ap, append-nil, append_assoc, ok_injective, ◌∙◌, ◌↔◌, false,
  Option, none, some, List, [], ◌∷◌, ◌++◌, map, ok, string_eq, AreFresh-start, IsUnique, AreFresh,
  AreFresh-cons, has-put, arith,
}
use ucf.Ir.Document.{Entity, entity_id, BehaviorIr}
use ucf.Ir.Validation.{
  EntityIndex, declared_name, is_declared, declare, index_entities, build_index,
}

-- The names of the capability requirements among the entities.
abbrev pub declared_names : List Entity → List String
declared_names [] = []
declared_names (entity ∷ entities) = elim (declared_name entity) [
  | none ↦ declared_names entities
  | some name ↦ name ∷ declared_names entities
]

abbrev pub indexed : Entity → String × Entity
indexed entity = (entity_id entity, entity)

fresh_name :
    (o : Option String) (names : List (String × String)) (id : String) (rest : List String)
    → ((elim o [ none ↦ false | some name ↦ has names name ] ≡ false)
        × AreFresh (has (elim o [ none ↦ names | some name ↦ put name id names ])) rest)
      ↔ AreFresh (has names) (elim o [ none ↦ rest | some name ↦ name ∷ rest ])
fresh_name none names id rest = (λ h. h.1, λ h. (refl, h))
fresh_name (some name) names id rest =
    AreFresh-cons (has names) (has (put name id names)) name (λ x. has-put name x id names) rest

declare-fresh :
    (names : List (String × String)) (entity : Entity) (entities : List Entity)
    → ((is_declared names entity ≡ false)
        × AreFresh (has (declare names entity)) (declared_names entities))
      ↔ AreFresh (has names) (declared_names (entity ∷ entities))
declare-fresh names entity entities =
    fresh_name (declared_name entity) names (entity_id entity) (declared_names entities)

abbrev ids : List Entity → List String
ids entities = map entity_id entities

put-fresh :
    (index : EntityIndex) (entity : Entity) (entities : List Entity)
    → ((has index (entity_id entity) ≡ false)
        × AreFresh (has (put (entity_id entity) entity index)) (ids entities))
      ↔ AreFresh (has index) (ids (entity ∷ entities))
put-fresh index entity entities =
    let id = entity_id entity in
    AreFresh-cons (has index) (has (put id entity index)) id (λ x. has-put id x entity index)
      (ids entities)

index_entities-ok :
    (i : ℕ) (index : EntityIndex) (names : List (String × String)) (entities : List Entity)
    → AreFresh (has index) (ids entities)
    → AreFresh (has names) (declared_names entities)
    → index_entities i index names entities ≡ ok (index ++ map indexed entities)
unfolding index_entities
index_entities-ok i index names [] u v = ap ok (sym (append-nil index))
index_entities-ok i index names (entity ∷ entities) u v =
    let id = entity_id entity in
    let (first, ids_rest) = (put-fresh index entity entities).1 u in
    let (second, names_rest) = (declare-fresh names entity entities).1 v in
    let rest =
      index_entities-ok (suc i) (put id entity index) (declare names entity) entities ids_rest
        names_rest in
    rw (first, second)
      (rest
        ∙ ap ok (
            ap (λ d. d ++ map indexed entities) (put_fresh id entity index first)
            ∙ append_assoc index (indexed entity ∷ []) (map indexed entities)))

index_entities-fresh :
    (i : ℕ) (index result : EntityIndex) (names : List (String × String)) (entities : List Entity)
    → index_entities i index names entities ≡ ok result
    → AreFresh (has index) (ids entities) × AreFresh (has names) (declared_names entities)
unfolding index_entities
index_entities-fresh i index result names [] e = ((tt, tt), (tt, tt))
index_entities-fresh i index result names (entity ∷ entities) e =
    let id = entity_id entity in
    let first : has index id ≡ false = ground arith in
    let second : is_declared names entity ≡ false = ground arith in
    let rest =
      index_entities-fresh (suc i) (put id entity index) result (declare names entity) entities
        (ground arith) in
    (
      (put-fresh index entity entities).0 (first, rest.0),
      (declare-fresh names entity entities).0 (second, rest.1),
    )

-- Identifiers, and names of capabilities, that occur once.
pub record IsIndexable (document : BehaviorIr) : Type 0 where
  pub unique_ids : IsUnique (map entity_id document.entities)
  pub unique_capabilities : IsUnique (declared_names document.entities)

pub build_index-ok :
    (document : BehaviorIr) (index : EntityIndex)
    → (build_index document ≡ ok index)
      ↔ (IsIndexable document × (index ≡ map indexed document.entities))
unfolding build_index
build_index-ok document index =
    let entities = document.entities in
    let built = λ (d : IsIndexable document).
      index_entities-ok 0 [] [] entities (AreFresh-start (ids entities) d.unique_ids)
        (AreFresh-start (declared_names entities) d.unique_capabilities) in
    (
      λ e.
          let (a, b) = index_entities-fresh 0 [] index [] entities e in
          let d : IsIndexable document = record { unique_ids = a.1; unique_capabilities = b.1 } in
          (d, ok_injective (sym e ∙ built d)),
      λ (d, e). rw e (built d),
    )

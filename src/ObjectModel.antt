-- ===== src/ObjectModel.antt =====
-- language/python/runtime-model/object_model: dedup.py and group_by.py. Items and their keys are of
-- any types; where no key or no transformation is given, it is the identity.
use mathlib.Core.Path.{subst}
use assets_system.Prelude.Dict
use assets_system.Prelude.Dict.{Dict}
use assets_system.Prelude.Keys
use assets_system.Prelude.{
  ℕ, ◌≡◌, ◌≢◌, refl, sym, ap, ◌∙◌, ite, if_pos, if_neg, inl, inr, Bool, true, false, Option, none,
  some, List, [], ◌∷◌, ◌++◌, map, if◌then◌else◌, ℕ_discrete, arith, Bool-cases,
}
mod Tests

module _ {K : Type 0} (dec : Discrete K) where
  -- `identity in seen`
  unfoldable pub contains : K → List K → Bool
  contains k [] = false
  contains k (x ∷ seen) = ite (dec x k) true (contains k seen)

module _ {T K : Type 0} (dec : Discrete K) (key : T → K) where
  -- the loop over the items that are left; the set is a list without order
  unfoldable pub dedup_from : List K → List T → List T
  unfolding contains
  dedup_from seen [] = []
  dedup_from seen (item ∷ items) =
      let added = item ∷ dedup_from (seen ++ key item ∷ []) items in
      let rest = dedup_from seen items in if contains dec (key item) seen then rest else added

  unfoldable pub dedup : List T → List T
  unfolding dedup_from
  dedup items = dedup_from [] items

module _ {V : Type 0} where
  append_assoc : (xs ys zs : List V) → (xs ++ ys) ++ zs ≡ xs ++ (ys ++ zs)
  append_assoc [] ys zs = refl
  append_assoc (x ∷ xs) ys zs = ap (λ r. x ∷ r) (append_assoc xs ys zs)

  append-nil : (xs : List V) → xs ++ [] ≡ xs
  append-nil [] = refl
  append-nil (x ∷ xs) = ap (λ r. x ∷ r) (append-nil xs)

  -- a group of the `defaultdict`
  unfoldable pub group_or_empty : Option (List V) → List V
  group_or_empty none = []
  group_or_empty (some group) = group

module _ {T K V : Type 0} (dec : Discrete K) (key : T → K) (transform : T → V) where
  unfoldable pub add_item : T → Dict K (List V) → Dict K (List V)
  unfolding group_or_empty
  add_item item groups =
      Dict.set dec (key item)
        (group_or_empty (Dict.get dec (key item) groups) ++ transform item ∷ []) groups

  unfoldable pub group_from : Dict K (List V) → List T → Dict K (List V)
  unfolding add_item
  group_from groups [] = groups
  group_from groups (item ∷ items) = group_from (add_item item groups) items

  unfoldable pub group_by : List T → Dict K (List V)
  unfolding group_from
  group_by items = group_from [] items

  -- The items with a key, transformed, in their order.
  abbrev pub having : K → List T → List V
  having k [] = []
  having k (item ∷ items) =
      let rest = having k items in ite (dec (key item) k) (transform item ∷ rest) rest

  -- The group of a key after an item.
  group-add_item :
      (k : K) (item : T) (items : List T) (groups : Dict K (List V))
      → group_or_empty (Dict.get dec k (add_item item groups)) ++ having k items
        ≡ group_or_empty (Dict.get dec k groups) ++ having k (item ∷ items)
  unfolding add_item group_or_empty
  group-add_item k item items groups =
      let old = group_or_empty (Dict.get dec (key item) groups) in
      let found = Dict.get-set dec (key item) k (old ++ transform item ∷ []) groups in
      elim (dec (key item) k) [
        | yes p ↦
            ap (λ o. group_or_empty o ++ having k items)
              (found
                ∙ if_pos (dec (key item) k) p (some (old ++ transform item ∷ []))
                    (Dict.get dec k groups))
            ∙ append_assoc old (transform item ∷ []) (having k items)
            ∙ ap (λ x. group_or_empty (Dict.get dec x groups) ++ transform item ∷ having k items) p
            ∙ ap (λ r. group_or_empty (Dict.get dec k groups) ++ r)
                (sym
                  (if_pos (dec (key item) k) p (transform item ∷ having k items) (having k items)))
        | no p ↦
            ap (λ o. group_or_empty o ++ having k items)
              (found
                ∙ if_neg (dec (key item) k) p (some (old ++ transform item ∷ []))
                    (Dict.get dec k groups))
            ∙ ap (λ r. group_or_empty (Dict.get dec k groups) ++ r)
                (sym
                  (if_neg (dec (key item) k) p (transform item ∷ having k items) (having k items)))
      ]

  group-group_from :
      (k : K) (items : List T) (groups : Dict K (List V))
      → group_or_empty (Dict.get dec k (group_from groups items))
        ≡ group_or_empty (Dict.get dec k groups) ++ having k items
  unfolding group_from
  group-group_from k [] groups = sym (append-nil (group_or_empty (Dict.get dec k groups)))
  group-group_from k (item ∷ items) groups =
      group-group_from k items (add_item item groups) ∙ group-add_item k item items groups

  -- Each group holds the items with its key, transformed, in the order of the input.
  pub group-group_by :
      (k : K) (items : List T) → group_or_empty (Dict.get dec k (group_by items)) ≡ having k items
  unfolding group_by Dict.get group_or_empty
  group-group_by k items = group-group_from k items []

module _ {K W : Type 0} (dec : Discrete K) where
  abbrev pub keys : Dict K W → List K
  keys d = map (λ p. p.0) d

  contains-keys : (k : K) (d : Dict K W) → contains dec k (keys d) ≡ Keys.has dec d k
  unfolding contains Dict.get
  contains-keys k [] = refl
  contains-keys k ((j, v) ∷ d) = ground (arith, contains-keys k d)

  keys-set :
      (k : K) (v : W) (d : Dict K W)
      → keys (Dict.set dec k v d) ≡ (if contains dec k (keys d) then keys d else keys d ++ k ∷ [])
  unfolding contains Dict.set
  keys-set k v [] = refl
  keys-set k v ((j, w) ∷ d) = ground (arith, keys-set k v d)

module _ {T K V : Type 0} (dec : Discrete K) (key : T → K) (transform : T → V) where
  keys-group_from :
      (items : List T) (groups : Dict K (List V))
      → keys dec (group_from dec key transform groups items)
        ≡ keys dec groups ++ map key (dedup_from dec key (keys dec groups) items)
  unfolding group_from dedup_from add_item
  keys-group_from [] groups = sym (append-nil (keys dec groups))
  keys-group_from (item ∷ items) groups =
      let added =
        keys-set dec (key item)
          (group_or_empty (Dict.get dec (key item) groups) ++ transform item ∷ []) groups in
      let rest = keys-group_from items (add_item dec key transform item groups) in
      elim (Bool-cases (contains dec (key item) (keys dec groups))) [
        | inl e ↦
            let same : keys dec (add_item dec key transform item groups) ≡ keys dec groups =
              added ∙ rw e refl in
            rest ∙ ap (λ ks. ks ++ map key (dedup_from dec key ks items)) same ∙ rw e refl
        | inr e ↦
            let more : keys dec (add_item dec key transform item groups)
                ≡ keys dec groups ++ key item ∷ [] =
              added ∙ rw e refl in
            rest
            ∙ ap (λ ks. ks ++ map key (dedup_from dec key ks items)) more
            ∙ append_assoc (keys dec groups) (key item ∷ [])
                (map key (dedup_from dec key (keys dec groups ++ key item ∷ []) items))
            ∙ rw e refl
      ]

  -- The groups are in the order in which their keys first occur, and `dedup` keeps one item for each
  -- group, in that order.
  pub keys-group_by :
      (items : List T) → keys dec (group_by dec key transform items) ≡ map key (dedup dec key items)
  unfolding group_by dedup
  keys-group_by items = keys-group_from items []

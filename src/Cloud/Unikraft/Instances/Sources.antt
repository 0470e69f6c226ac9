-- ===== src/Cloud/Unikraft/Instances/Sources.antt =====
-- Where an instance that `getOrCreate` of internal/cloud/unikraft.go returns comes from.
use sshmux.Base.{
  refl, Text, true, false, none, some, List, [], ◌∷◌, Result, ok, err, ◌≡◌, arith, Result-cases,
  Bool-cases, inl, inr, ◌⊎◌,
}
use sshmux.Externals.{Libs}
use sshmux.Cloud.Unikraft.{
  Crypto, UnikraftProvider, Instance, not_found, already_exists, other, CloudError, create_instance,
  UnikraftInstance, instance_from_platform, CreateRequest, create_request,
}
use sshmux.Cloud.Unikraft.Instances.{
  Platform, found, lookup_instance, unlimited, count_prefixed, at_limit, within_limit,
  check_instance_limit, created, create_guest, look_again, after_create, get_or_create,
}

module _ {L : Libs} {C : Crypto L} (P : Platform C) (p : UnikraftProvider) where
  open P use {World, get_instances, create}

  -- The limit leaves room: there is none, or the platform has no data, or fewer instances of sshmux
  -- than it are counted.
  pub data HasRoom : World → Type 0 where
    no_limit : {w : World} → unlimited P p p.max_inst ≡ true → HasRoom w
    no_data : {w : World} → (get_instances none w).0 ≡ ok none → HasRoom w
    below :
        {w : World} (is : List Instance)
        → (get_instances none w).0 ≡ ok (some is)
        → at_limit P p (count_prefixed P p is) p.max_inst ≡ false
        → HasRoom w

  -- The first instance that the platform has under the name is this one.
  pub record Found (name : Text) (inst : UnikraftInstance C) (w : World) : Type 0 where
    pub first : Instance
    pub others : List Instance
    pub answer : (get_instances (some name) w).0 ≡ ok (some (first ∷ others))
    pub read : instance_from_platform C p first ≡ ok inst

  -- The first instance of the answer to a creation with the request for the name is this one.
  pub record Made (name : Text) (inst : UnikraftInstance C) (w : World) : Type 0 where
    pub request : CreateRequest C
    pub first : Instance
    pub others : List Instance
    pub requested : create_request C p name ≡ ok request
    pub answer : (create request w).0 ≡ ok (some (first ∷ others))
    pub read : instance_from_platform C p first ≡ ok inst

  -- The world after the look-up, and the one after the check of the limit
  abbrev pub looked_up : Text → World → World
  looked_up name w = (lookup_instance P p name w).1

  abbrev pub counted_up : Text → World → World
  counted_up name w = (check_instance_limit P p (looked_up name w)).1

  -- Where an instance for a name comes from
  pub data Source (name : Text) (w : World) (inst : UnikraftInstance C) : Type 0 where
    found_first : Found name inst w → Source name w inst
    -- The look-up finds none, the limit leaves room, and the creation answers.
    made :
        (lookup_instance P p name w).0 ≡ ok none
        → HasRoom (looked_up name w)
        → Made name inst (counted_up name w)
        → Source name w inst
    -- The creation says that the instance is there already, and then it is found.
    found_again :
        (lookup_instance P p name w).0 ≡ ok none
        → HasRoom (looked_up name w)
        → (create_guest P p name (counted_up name w)).0 ≡ err (create_instance already_exists)
        → Found name inst (create_guest P p name (counted_up name w)).1
        → Source name w inst

  check_instance_limit-HasRoom : (w : World) → (check_instance_limit P p w).0 ≡ ok tt → HasRoom w
  unfolding check_instance_limit within_limit
  check_instance_limit-HasRoom w h = elim (Bool-cases (unlimited P p p.max_inst)) [
    | inl t ↦ no_limit t
    | inr f ↦ elim (Result-cases (get_instances none w).0) [
      | inl (e, x) ↦ absurd (ground arith)
      | inr (none, x) ↦ no_data x
      | inr (some is, x) ↦ below is x (ground arith)
    ]
  ]

  lookup_instance-Found :
      (name : Text) (w : World) (inst : UnikraftInstance C)
      → (lookup_instance P p name w).0 ≡ ok (some inst)
      → Found name inst w
  unfolding lookup_instance found
  lookup_instance-Found name w inst h = elim (Result-cases (get_instances (some name) w).0) [
    | inl (not_found, x) ↦ absurd (ground arith)
    | inl (already_exists, x) ↦ absurd (ground arith)
    | inl (other e, x) ↦ absurd (ground arith)
    | inr (none, x) ↦ absurd (ground arith)
    | inr (some [], x) ↦ absurd (ground arith)
    | inr (some (i ∷ is), x) ↦ record { first = i; others = is; answer = x; read = ground arith }
  ]

  create_guest-Made :
      (name : Text) (w : World) (inst : UnikraftInstance C)
      → (create_guest P p name w).0 ≡ ok inst
      → Made name inst w
  unfolding create_guest created
  create_guest-Made name w inst h = elim (Result-cases (create_request C p name)) [
    | inl (e, x) ↦ absurd (ground arith)
    | inr (request, x) ↦ elim (Result-cases (create request w).0) [
      | inl (e, y) ↦ absurd (ground arith)
      | inr (none, y) ↦ absurd (ground arith)
      | inr (some [], y) ↦ absurd (ground arith)
      | inr (some (i ∷ is), y) ↦ record {
        request = request;
        first = i;
        others = is;
        requested = x;
        answer = y;
        read = ground arith;
      }
    ]
  ]

  -- After a creation an instance is the one that was made, or the second look-up found it.
  after_create-Found :
      (name : Text) (r : Result CloudError (UnikraftInstance C)) (w : World)
      (inst : UnikraftInstance C)
      → (after_create P p name r w).0 ≡ ok inst
      → (r ≡ ok inst) ⊎ ((r ≡ err (create_instance already_exists)) × Found name inst w)
  unfolding after_create look_again
  after_create-Found name (ok inst') w inst h = inl h
  after_create-Found name (err (create_instance already_exists)) w inst h =
      elim (Result-cases (lookup_instance P p name w).0) [
        | inl (e, x) ↦ absurd (ground arith)
        | inr (none, x) ↦ absurd (ground arith)
        | inr (some inst', x) ↦ inr (refl, lookup_instance-Found name w inst (ground arith))
      ]
  after_create-Found name (err e) w inst h = inl h

  get_or_create-cases :
      (name : Text) (w : World) (inst : UnikraftInstance C)
      → (get_or_create P p name w).0 ≡ ok inst
      → ((lookup_instance P p name w).0 ≡ ok (some inst))
        ⊎ (((lookup_instance P p name w).0 ≡ ok none)
            × ((check_instance_limit P p (lookup_instance P p name w).1).0 ≡ ok tt)
            × (let w₂ = (check_instance_limit P p (lookup_instance P p name w).1).1 in
                let guest = create_guest P p name w₂ in
                (after_create P p name guest.0 guest.1).0 ≡ ok inst))
  unfolding get_or_create
  get_or_create-cases name w inst h = elim (Result-cases (lookup_instance P p name w).0) [
    | inl (e, x) ↦ absurd (ground arith)
    | inr (some inst', x) ↦ inl (ground arith)
    | inr (none, x) ↦
        elim (Result-cases (check_instance_limit P p (lookup_instance P p name w).1).0) [
          | inl (e, y) ↦ absurd (ground arith)
          | inr (tt, y) ↦ inr (x, y, ground arith)
        ]
  ]

  -- Whatever the platform answers, an instance that is returned for a name is the first one that the
  -- look-up of the name gave; or, when that found none and the limit left room, the first one of the
  -- answer to a creation with the request for the name; or, when that creation said that the instance
  -- is there already, the first one that a second look-up gave.
  pub get_or_create-Source :
      (name : Text) (w : World) (inst : UnikraftInstance C)
      → (get_or_create P p name w).0 ≡ ok inst
      → Source name w inst
  get_or_create-Source name w inst h = elim (get_or_create-cases name w inst h) [
    | inl x ↦ found_first (lookup_instance-Found name w inst x)
    | inr (x, y, z) ↦
        let guest = create_guest P p name (counted_up name w) in
        let room = check_instance_limit-HasRoom (looked_up name w) y in
        elim (after_create-Found name guest.0 guest.1 inst z) [
          | inl k ↦ made x room (create_guest-Made name (counted_up name w) inst k)
          | inr (k, again) ↦ found_again x room k again
        ]
  ]

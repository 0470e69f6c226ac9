-- ===== src/Cloud/Unikraft/Instances/Laws.antt =====
-- What `getOrCreate` and `Dial` of internal/cloud/unikraft.go come to.
use sshmux.Base.{
  ◌∙◌, Text, true, false, Option, none, some, List, [], ◌∷◌, Result, ok, err, ◌≡◌, refl, arith, inl,
  inr, is_some, Result-cases, Bool-cases,
}
use sshmux.Externals.{Libs}
use sshmux.Cloud.Unikraft.{Crypto, UnikraftProvider, CloudError, instance_name, UnikraftInstance}
use sshmux.Cloud.Unikraft.Instances.{
  Platform, lookup_instance, check_instance_limit, ssh_client, get_or_create, is_retryable, Wake,
  cancelled, deadline, backoff, DialError, cloud, ssh, wait_cancelled, returns, waits, dial_turn,
  after_turn, dial,
}

-- How the first wait ends that does not end with the backoff
abbrev pub first_end : List Wake → Option Wake
first_end [] = none
first_end (cancelled ∷ wakes) = some cancelled
first_end (deadline ∷ wakes) = some deadline
first_end (backoff ∷ wakes) = first_end wakes

module _ {L : Libs} {C : Crypto L} (P : Platform C) (p : UnikraftProvider) where
  open P use {World, get_instances, create, Client}

  -- An instance that the look-up finds is used as it is: neither the limit is looked at nor
  -- anything created, so the world is the one after the look-up.
  pub get_or_create-found :
      (name : Text) (w : World) (inst : UnikraftInstance C)
      → (lookup_instance P p name w).0 ≡ ok (some inst)
      → get_or_create P p name w ≡ (ok inst, (lookup_instance P p name w).1)
  unfolding get_or_create
  get_or_create-found name w inst h = ground arith

  -- When no instance is found and the check of the limit fails, its error is returned and nothing
  -- is created: the world is the one after the check.
  pub get_or_create-limited :
      (name : Text) (w : World) (e : CloudError)
      → (lookup_instance P p name w).0 ≡ ok none
      → (check_instance_limit P p (lookup_instance P p name w).1).0 ≡ err e
      → get_or_create P p name w
        ≡ (err e, (check_instance_limit P p (lookup_instance P p name w).1).1)
  unfolding get_or_create
  get_or_create-limited name w e h k = ground arith

  -- A handshake with this user's instance has failed with an error that is worth another one.
  pub record Retry (username msg : Text) (w w' : World) : Type 0 where
    pub inst : UnikraftInstance C
    pub has_instance : (get_or_create P p (instance_name C p username) w).0 ≡ ok inst
    pub handshake :
        ssh_client P p inst username (get_or_create P p (instance_name C p username) w).1
        ≡ (err msg, w')
    pub retryable : is_retryable msg ≡ true

  -- What `Dial` returns to a user, by how its waits end
  pub data Dialled (username : Text) : List Wake → World → Result DialError Client → Type 0 where
    -- An error of the provider is passed on.
    refused :
        {wakes : List Wake} {w : World} {e : CloudError}
        → (get_or_create P p (instance_name C p username) w).0 ≡ err e
        → Dialled username wakes w (err (cloud e))
    -- A client is one that the handshake with this user's instance gave.
    connected :
        {wakes : List Wake} {w : World} {client : Client} (inst : UnikraftInstance C)
        → (get_or_create P p (instance_name C p username) w).0 ≡ ok inst
        → (ssh_client P p inst username (get_or_create P p (instance_name C p username) w).1).0
          ≡ ok client
        → Dialled username wakes w (ok client)
    -- An error of that handshake that is not worth another one is passed on.
    failed :
        {wakes : List Wake} {w : World} {msg : Text} (inst : UnikraftInstance C)
        → (get_or_create P p (instance_name C p username) w).0 ≡ ok inst
        → (ssh_client P p inst username (get_or_create P p (instance_name C p username) w).1).0
          ≡ err msg
        → is_retryable msg ≡ false
        → Dialled username wakes w (err (ssh msg))
    -- The cancellation comes while a handshake is to be tried again.
    gave_up :
        {wakes : List Wake} {w w' : World} {msg : Text}
        → Retry username msg w w'
        → Dialled username (cancelled ∷ wakes) w (err wait_cancelled)
    -- The deadline comes: the error is that of the handshake that was to be tried again.
    timed_out :
        {wakes : List Wake} {w w' : World} {msg : Text}
        → Retry username msg w w'
        → Dialled username (deadline ∷ wakes) w (err (ssh msg))
    -- The handshake is tried again, in the world that the last one left.
    again :
        {wakes : List Wake} {w w' : World} {msg : Text} {r : Result DialError Client}
        → Retry username msg w w'
        → Dialled username wakes w' r
        → Dialled username (backoff ∷ wakes) w r

  -- A turn that returns, whatever the waits, or that is followed by a wait
  data TurnCases (username : Text) (w : World) : Type 0 where
    ended :
        (r : Result DialError Client)
        → (dial_turn P p (instance_name C p username) username w).0 ≡ returns r
        → ((wakes : List Wake) → Dialled username wakes w r)
        → TurnCases username w
    waiting :
        (msg : Text) (w' : World)
        → dial_turn P p (instance_name C p username) username w ≡ (waits msg, w')
        → Retry username msg w w'
        → TurnCases username w

  handshake-TurnCases :
      (username : Text) (w : World) (inst : UnikraftInstance C)
      → (get_or_create P p (instance_name C p username) w).0 ≡ ok inst
      → TurnCases username w
  unfolding dial_turn
  handshake-TurnCases username w inst h =
      let w₁ = (get_or_create P p (instance_name C p username) w).1 in
      elim (Result-cases (ssh_client P p inst username w₁).0) [
        | inr (client, k) ↦ ended (ok client) (ground arith) (λ wakes. connected inst h k)
        | inl (msg, k) ↦ elim (Bool-cases (is_retryable msg)) [
          | inr b ↦ ended (err (ssh msg)) (ground arith) (λ wakes. failed inst h k b)
          | inl b ↦
              let w₂ = (ssh_client P p inst username w₁).1 in
              waiting msg w₂ (ground arith)
                (record { inst = inst; has_instance = h; handshake = ground arith; retryable = b })
        ]
      ]

  dial_turn-cases : (username : Text) (w : World) → TurnCases username w
  unfolding dial_turn
  dial_turn-cases username w =
      elim (Result-cases (get_or_create P p (instance_name C p username) w).0) [
        | inl (e, h) ↦ ended (err (cloud e)) (ground arith) (λ wakes. refused h)
        | inr (inst, h) ↦ handshake-TurnCases username w inst h
      ]

  dial_of_return :
      (username : Text) (wakes : List Wake) (w : World) (r : Result DialError Client)
      → (dial_turn P p (instance_name C p username) username w).0 ≡ returns r
      → dial P p username wakes w
        ≡ some (r, (dial_turn P p (instance_name C p username) username w).1)
  unfolding dial after_turn
  dial_of_return username wakes w r h = ground arith

  -- What a wait comes to
  abbrev waited : Text → List Wake → Text → World → Option (Result DialError Client × World)
  waited username [] msg w = none
  waited username (cancelled ∷ wakes) msg w = some (err wait_cancelled, w)
  waited username (deadline ∷ wakes) msg w = some (err (ssh msg), w)
  waited username (backoff ∷ wakes) msg w = dial P p username wakes w

  dial_of_wait :
      (username : Text) (wakes : List Wake) (msg : Text) (w w' : World)
      → dial_turn P p (instance_name C p username) username w ≡ (waits msg, w')
      → dial P p username wakes w ≡ waited username wakes msg w'
  unfolding dial after_turn
  dial_of_wait username [] msg w w' h = rw h refl
  dial_of_wait username (cancelled ∷ wakes) msg w w' h = rw h refl
  dial_of_wait username (deadline ∷ wakes) msg w w' h = rw h refl
  dial_of_wait username (backoff ∷ wakes) msg w w' h = rw h refl

  -- The loop has ended as it should.
  abbrev pub IsDialled : Text → List Wake → World → Type 0
  IsDialled username wakes w =
      (r : Result DialError Client) × (w' : World) × (dial P p username wakes w ≡ some (r, w'))
      × Dialled username wakes w r

  waited-IsDialled :
      (username : Text) (wakes : List Wake) (w : World)
      → ((msg : Text) (w' : World)
          → dial P p username wakes w ≡ waited username wakes msg w'
          → Retry username msg w w'
          → IsDialled username wakes w)
      → IsDialled username wakes w
  waited-IsDialled username wakes w wait = elim (dial_turn-cases username w) [
    | ended r t d ↦ (_, _, dial_of_return username wakes w r t, d wakes)
    | waiting msg w' t retry ↦ wait msg w' (dial_of_wait username wakes msg w w' t) retry
  ]

  -- Once a wait ends with the deadline or with the cancellation of the context, `Dial` has
  -- returned. It tries the handshake with this user's instance again after each wait that ends with
  -- the backoff, as long as its error is worth another one; and it returns the client of the last
  -- handshake, an error of the provider, the error of a handshake that is not worth another one or
  -- after which the deadline comes, or the cancellation if that comes then.
  pub dial-Dialled :
      (username : Text) (wakes : List Wake) (w : World)
      → is_some (first_end wakes) ≡ true
      → (r : Result DialError Client) × (w' : World) × (dial P p username wakes w ≡ some (r, w'))
        × Dialled username wakes w r
  dial-Dialled username [] w h = absurd (ground arith)
  dial-Dialled username (cancelled ∷ wakes) w h =
      waited-IsDialled username (cancelled ∷ wakes) w (λ msg w' e retry. (_, w', e, gave_up retry))
  dial-Dialled username (deadline ∷ wakes) w h =
      waited-IsDialled username (deadline ∷ wakes) w (λ msg w' e retry. (_, w', e, timed_out retry))
  dial-Dialled username (backoff ∷ wakes) w h =
      waited-IsDialled username (backoff ∷ wakes) w (λ msg w' e retry.
        let (r, w'', e', d) = dial-Dialled username wakes w' h in (r, w'', e ∙ e', again retry d))

-- ===== src/Server/State/Holds.antt =====
-- How an operation of the server ends: a condition on the result and the state where it succeeds,
-- one on the state where it fails, and no panic. There is a rule for each way to build operations.
use frclib_nettables.Base.{ℕ, ◌≡◌, ◌≢◌, refl, Option, none, some, Option-cases, inl, inr}
use frclib_nettables.Base.Map.{Map, nat_key, lookup, adjust}
use frclib_nettables.Server.Connected.{ConnectedClient}
use frclib_nettables.Server.State.{
  InnerServer, M, pure, fail, gets, modify, ok_or, unwrap, with_client, ◌>>=◌,
}
use frclib_nettables.Spec.Error.{Outcome, ok, err, panicked, NtServerError}

abbrev pub Ends : {S A : Type 0} → (A → S → Type 0) → (S → Type 0) → Outcome A → S → Type 0
Ends Q E (ok a) s = Q a s
Ends Q E (err e) s = E s
Ends Q E panicked s = ⊥

pub record Holds {S A : Type 0} (Q : A → S → Type 0) (E : S → Type 0) (r : Outcome A × S)
    : Type 0 where
  pub ends : Ends Q E r.0 r.1

-- A method of one client that does not panic.
abbrev pub IsQuiet : Outcome (Unit {0}) × ConnectedClient → Type 0
IsQuiet r = r.0 ≢ panicked

abbrev pub done : Outcome (Unit {0})
done = ok tt

pub ok-ne-panicked : done ≢ panicked
ok-ne-panicked h = cc

module _ {V : Type 0} where
  -- One invariant for both ways to end.
  abbrev pub Keeps : {A : Type 0} → (InnerServer V → Type 0) → Outcome A × InnerServer V → Type 0
  Keeps I r = Holds (λ _ t. I t) I r

  Ends-continue :
      {A B : Type 0} (Q : A → InnerServer V → Type 0) (R : B → InnerServer V → Type 0)
      (E : InnerServer V → Type 0) (f : A → M V B) (r : Outcome A) (t : InnerServer V)
      → Ends Q E r t
      → ((a : A) (t : InnerServer V) → Q a t → Holds R E (f a t))
      → Holds R E (elim r [ ok a ↦ f a t | err e ↦ (err e, t) | panicked ↦ (panicked, t) ])
  Ends-continue Q R E f (ok a) t h k = k a t h
  Ends-continue Q R E f (err e) t h k = record { ends = h }
  Ends-continue Q R E f panicked t h k = absurd h

  -- Whatever the result, the invariant holds after it.
  pub Keeps-after :
      {A : Type 0} (I : InnerServer V → Type 0) (r : Outcome A × InnerServer V) → Keeps I r → I r.1
  Keeps-after I (ok a, t) h = h.ends
  Keeps-after I (err e, t) h = h.ends
  Keeps-after I (panicked, t) h = absurd h.ends

  -- Steps in a row.
  pub Holds-bind :
      {A B : Type 0} (Q : A → InnerServer V → Type 0) {R : B → InnerServer V → Type 0}
      {E : InnerServer V → Type 0} (m : M V A) (f : A → M V B) (s : InnerServer V)
      → Holds Q E (m s)
      → ((a : A) (t : InnerServer V) → Q a t → Holds R E (f a t))
      → Holds R E ((m >>= f) s)
  unfolding ◌>>=◌
  Holds-bind Q {R} {E} m f s h k = Ends-continue Q R E f (m s).0 (m s).1 h.ends k

  module _ {B : Type 0} {R : B → InnerServer V → Type 0} {E : InnerServer V → Type 0} where
    pub Holds-pure : (b : B) (s : InnerServer V) → R b s → Holds R E (pure b s)
    Holds-pure b s h = record { ends = h }

    pub Holds-fail : (e : NtServerError) (s : InnerServer V) → E s → Holds R E (fail {A = B} e s)
    Holds-fail e s h = record { ends = h }

    pub Holds-gets :
        {A : Type 0} (g : InnerServer V → A) (f : A → M V B) (s : InnerServer V)
        → Holds R E (f (g s) s)
        → Holds R E ((gets g >>= f) s)
    unfolding ◌>>=◌
    Holds-gets g f s h = h

    pub Holds-modify :
        (g : InnerServer V → InnerServer V) (f : Unit {0} → M V B) (s : InnerServer V)
        → Holds R E (f tt (g s))
        → Holds R E ((modify g >>= f) s)
    unfolding ◌>>=◌
    Holds-modify g f s h = h

    pub Holds-ok_or :
        {A : Type 0} (o : Option A) (e : NtServerError) (f : A → M V B) (s : InnerServer V)
        → (o ≡ none → E s)
        → ((a : A) → o ≡ some a → Holds R E (f a s))
        → Holds R E ((ok_or o e >>= f) s)
    unfolding ◌>>=◌
    Holds-ok_or none e f s missing found = record { ends = missing refl }
    Holds-ok_or (some a) e f s missing found = found a refl

    pub Holds-unwrap :
        {A : Type 0} (o : Option A) (f : A → M V B) (s : InnerServer V)
        → o ≢ none
        → ((a : A) → o ≡ some a → Holds R E (f a s))
        → Holds R E ((unwrap o >>= f) s)
    unfolding ◌>>=◌
    Holds-unwrap none f s there found = absurd (there refl)
    Holds-unwrap (some a) f s there found = found a refl

    pub Holds-weaken :
        (Q : B → InnerServer V → Type 0) (F : InnerServer V → Type 0)
        (r : Outcome B × InnerServer V)
        → ((b : B) (t : InnerServer V) → Q b t → R b t)
        → ((t : InnerServer V) → F t → E t)
        → Holds Q F r
        → Holds R E r
    Holds-weaken Q F (ok b, t) p q h = record { ends = p b t h.ends }
    Holds-weaken Q F (err e, t) p q h = record { ends = q t h.ends }
    Holds-weaken Q F (panicked, t) p q h = absurd h.ends

  -- A method of a client: only the clients change.
  Holds-method :
      (Q : Unit {0} → InnerServer V → Type 0) (E : InnerServer V → Type 0)
      (r : Outcome (Unit {0}) × ConnectedClient) (g : ConnectedClient → InnerServer V)
      → IsQuiet r
      → Q tt (g r.1)
      → E (g r.1)
      → Holds Q E (r.0, g r.1)
  Holds-method Q E (ok tt', c) g q good bad = record { ends = good }
  Holds-method Q E (err e, c) g q good bad = record { ends = bad }
  Holds-method Q E (panicked, c) g q good bad = absurd (q refl)

  pub Holds-with_client :
      {Q : Unit {0} → InnerServer V → Type 0} {E : InnerServer V → Type 0} (i : ℕ)
      (missing : M V (Unit {0})) (method : ConnectedClient → Outcome (Unit {0}) × ConnectedClient)
      (s : InnerServer V)
      → (lookup i s.clients ≡ none → Holds Q E (missing s))
      → ((c : ConnectedClient) → IsQuiet (method c))
      → ((cs : Map ℕ ConnectedClient) → Q tt (record s { clients = cs }))
      → ((cs : Map ℕ ConnectedClient) → E (record s { clients = cs }))
      → Holds Q E (with_client i missing method s)
  unfolding with_client
  Holds-with_client {Q} {E} i missing method s absent quiet good bad =
      elim (Option-cases (lookup i s.clients)) [
        | inl e ↦ rw (e, with_client) (absent e)
        | inr (c, e) ↦
            rw (e, with_client)
              (Holds-method Q E (method c)
                (λ c'. record s { clients = adjust i (λ _. c') s.clients }) (quiet c) (good _)
                (bad _))
      ]

  -- The client is there and its method succeeds.
  pub Holds-with_client_ok :
      {Q : Unit {0} → InnerServer V → Type 0} {E : InnerServer V → Type 0} (i : ℕ)
      (missing : M V (Unit {0})) (method : ConnectedClient → Outcome (Unit {0}) × ConnectedClient)
      (s : InnerServer V) (c c' : ConnectedClient)
      → lookup i s.clients ≡ some c
      → method c ≡ (ok tt, c')
      → Q tt (record s { clients = adjust i (λ _. c') s.clients })
      → Holds Q E (with_client i missing method s)
  unfolding with_client
  Holds-with_client_ok i missing method s c c' e f q = rw (e, with_client, f) (record { ends = q })

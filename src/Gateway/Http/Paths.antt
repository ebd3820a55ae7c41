-- ===== src/Gateway/Http/Paths.antt =====
-- Rules for what holds of the database when a handler ends, one for each way to go on or to return.
use wire_server.Prelude.{
  ◌+◌, Bool, true, false, Option, none, some, ◌≡◌, refl, arith, Bool-cases, Option-cases, inl, inr,
}
use wire_server.Storage.Rows.{Tables}
use wire_server.Storage.Pool.{World, Statement, exec, query}
use wire_server.Gateway.Http.{
  Reply, Handler, Flow, next, done, ◌>>=◌, ◌>>◌, op, ensure, unwrap, reply,
}

-- A property of how a handler ends: its flow and the database.
abbrev pub Ending : Type 1
Ending = Flow Reply × World → Type 0

module _ (R : Ending) where
  -- A refused request ends at once, with the database as it is.
  pub ensure-then :
      (b : Bool) (r : Reply) (k : Handler Reply) (w : World)
      → R (done r, w)
      → (b ≡ true → R (k w))
      → R ((ensure b r >> k) w)
  unfolding ◌>>=◌
  ensure-then true r k w here on = on refl
  ensure-then false r k w here on = here

  pub unwrap-then {κ} :
      {A : Type κ} (o : Option A) (r : Reply) (f : A → Handler Reply) (w : World)
      → R (done r, w)
      → ((a : A) → o ≡ some a → R (f a w))
      → R ((unwrap o r >>= f) w)
  unfolding ◌>>=◌
  unwrap-then (some a) r f w here on = on a refl
  unwrap-then none r f w here on = here

  pub op-then {κ} :
      {A : Type κ} (m : World → A × World) (f : A → Handler Reply) (w : World)
      → R (f (m w).0 (m w).1)
      → R ((op m >>= f) w)
  unfolding ◌>>=◌
  op-then m f w on = on

  pub ensure_op-then :
      (m : World → Bool × World) (r : Reply) (k : Handler Reply) (w : World)
      → R (done r, (m w).1)
      → ((m w).0 ≡ true → R (k (m w).1))
      → R ((op m >>= λ b. ensure b r >> k) w)
  ensure_op-then m r k w here on = op-then m _ w (ensure-then (m w).0 r k (m w).1 here on)

  pub then_reply {κ} :
      {A : Type κ} (m : World → A × World) (r : Reply) (w : World)
      → R (next r, (m w).1)
      → R ((op m >>= λ _. reply r) w)
  unfolding ◌>>=◌
  then_reply m r w on = on

  pub then_ensure_reply :
      (m : World → Bool × World) (refused r : Reply) (w : World)
      → R (done refused, (m w).1)
      → R (next r, (m w).1)
      → R ((op m >>= λ b. ensure b refused >> reply r) w)
  unfolding ◌>>=◌
  then_ensure_reply m refused r w here on =
      ensure-then (m w).0 refused (reply r) (m w).1 here (λ _. on)

-- A statement of the pool that succeeds, or that has changed nothing.
pub exec-tables :
    (P : Tables → Type 0) (stmt : Statement) (w : World)
    → P w.tables
    → ((t : Tables) → stmt w.tables ≡ some t → P t)
    → P (exec stmt w).1.tables
unfolding exec
exec-tables P stmt w here on = elim (Bool-cases (w.fails w.calls)) [
  | inl failed ↦ rw failed here
  | inr reached ↦ elim (Option-cases (stmt w.tables)) [
    | inl refused ↦ rw (reached, refused) here
    | inr (t, applied) ↦ rw (reached, applied) (on t applied)
  ]
]

pub calls-exec : (stmt : Statement) (w : World) → (exec stmt w).1.calls ≡ w.calls + 1
unfolding exec
calls-exec stmt w = ground arith

-- A query changes nothing but the number of calls.
module _ {ℓ} {A : Type ℓ} (q : Tables → A) (w : World) where
  pub tables-query : (query q w).1.tables ≡ w.tables
  unfolding query
  tables-query = ground arith

  pub query-eq-some : {a : A} → (query q w).0 ≡ some a → a ≡ q w.tables
  unfolding query
  query-eq-some h = ground arith

  pub query_reached : w.fails w.calls ≡ false → (query q w).0 ≡ some (q w.tables)
  unfolding query
  query_reached h = ground arith

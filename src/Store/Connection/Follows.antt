-- ===== src/Store/Connection/Follows.antt =====
-- Actions on the connection of src/store/mod.rs against what they do to the tables when no use fails.
use npmfilter.Prelude.{ℕ, true, ◌≡◌, ◌⊎◌, inl, inr, refl, arith, Bool-cases, ◌∙◌, subst, sym, ap}
use npmfilter.Prelude.Result.{Result, ok, err}
use npmfilter.Store.Errors.{StoreError, query}
use npmfilter.Store.Tables.{Tables}
use npmfilter.Store.Connection.{
  Connection, Action, pure, lift, ◌>>=◌, statement, select, execute, attempt, roll_back,
  in_transaction,
}

-- Some use of the connection fails.
abbrev pub HasFault : Connection → Type 0
HasFault c = (n : ℕ) × (c.fails n ≡ true)

-- The action reported the failure of a use, or it answered with `a` and left the tables `t`.
abbrev pub Follows :
    {A : Type 0} → Connection → Result StoreError A × Connection → A × Tables → Type 0
Follows c (r, d) (a, t) =
    (d.fails ≡ c.fails) × (((r ≡ err query) × HasFault c) ⊎ ((r ≡ ok a) × (d.tables ≡ t)))

module _ {A : Type 0} where
  pub pure-Follows : (a : A) (c : Connection) → Follows c (pure a c) (a, c.tables)
  pure-Follows a c = (refl, inr (refl, refl))

  pub select-Follows :
      (f : Tables → A) (c : Connection) → Follows c (select f c) (f c.tables, c.tables)
  unfolding select
  select-Follows f c = elim (Bool-cases (c.fails c.uses)) [
    | inl e ↦ (refl, inl (ground arith, (c.uses, e)))
    | inr e ↦ (refl, inr (ground arith, refl))
  ]

  tables-select : (f : Tables → A) (c : Connection) → (select f c).1.tables ≡ c.tables
  unfolding select
  tables-select f c = refl

  pub statement-Follows :
      (f : Tables → A × Tables) (c : Connection) → Follows c (statement f c) (f c.tables)
  unfolding statement
  statement-Follows f c = elim (Bool-cases (c.fails c.uses)) [
    | inl e ↦ rw e (refl, inl (refl, (c.uses, e)))
    | inr e ↦ rw e (refl, inr (refl, refl))
  ]

pub execute-Follows :
    (f : Tables → Tables) (c : Connection) → Follows c (execute f c) (tt, f c.tables)
unfolding execute
execute-Follows f c = elim (Bool-cases (c.fails c.uses)) [
  | inl e ↦ rw e (refl, inl (refl, (c.uses, e)))
  | inr e ↦ rw e (refl, inr (refl, refl))
]

pub attempt-Follows : (c : Connection) → Follows c (attempt c) (tt, c.tables)
unfolding attempt
attempt-Follows c = elim (Bool-cases (c.fails c.uses)) [
  | inl e ↦ rw e (refl, inl (refl, (c.uses, e)))
  | inr e ↦ rw e (refl, inr (refl, refl))
]

module _ {A B : Type 0} where
  bind_out :
      (c : Connection) (out : Result StoreError A × Connection) (f : A → Action B) (a : A)
      (t : Tables) (spec : B × Tables)
      → Follows c out (a, t)
      → ((d : Connection) → d.tables ≡ t → d.fails ≡ c.fails → Follows d (f a d) spec)
      → Follows c (((λ c'. out) >>= f) c) spec
  bind_out c (err e, d) f a t spec (same, inl (failed, fault)) next =
      (same, inl (ground arith, fault))
  bind_out c (err e, d) f a t spec (same, inr (done, left)) next = ground arith
  bind_out c (ok x, d) f a t spec (same, inl (failed, fault)) next = ground arith
  bind_out c (ok x, d) f a t spec (same, inr (done, left)) next =
      let (same', outcome) = next d left same in
      let here : x ≡ a = ground arith in
      subst (λ y. Follows c (f y d) spec) (sym here)
        (
          same' ∙ same,
          elim outcome [
            | inl (failed, (n, e)) ↦ inl (failed, (n, subst (λ g. g n ≡ true) same e))
            | inr answered ↦ inr answered
          ],
        )

  -- One action after the other.
  pub bind-Follows :
      (c : Connection) (m : Action A) (f : A → Action B) (a : A) (t : Tables) (spec : B × Tables)
      → Follows c (m c) (a, t)
      → ((d : Connection) → d.tables ≡ t → d.fails ≡ c.fails → Follows d (f a d) spec)
      → Follows c ((m >>= f) c) spec
  bind-Follows c m f a t spec h next = bind_out c (m c) f a t spec h next

-- A statement that is prepared first.
pub prepared-Follows :
    {A : Type 0} (body : Action A) (spec : A × Tables) (t : Tables) (c : Connection)
    → c.tables ≡ t
    → ((d : Connection) → d.tables ≡ t → Follows d (body d) spec)
    → Follows c ((attempt >>= λ u. body) c) spec
prepared-Follows body spec t c here h =
    bind-Follows c attempt (λ u. body) tt c.tables spec (attempt-Follows c)
      (λ d left same. h d (ground arith))

-- A write without an answer, and then an answer.
pub execute-pure-Follows :
    {A : Type 0} (f : Tables → Tables) (a : A) (c : Connection)
    → Follows c ((execute f >>= λ u. pure a) c) (a, f c.tables)
execute-pure-Follows f a c =
    bind-Follows c (execute f) (λ u. pure a) tt (f c.tables) (a, f c.tables) (execute-Follows f c)
      (λ d left same. (refl, inr (refl, left)))

-- The same of a transaction, which leaves the tables as they were where it reports a failure.
abbrev pub IsAtomic :
    {A : Type 0} → Connection → Result StoreError A × Connection → A × Tables → Type 0
IsAtomic c (r, d) (a, t) =
    (d.fails ≡ c.fails)
    × (((r ≡ err query) × HasFault c × (d.tables ≡ c.tables)) ⊎ ((r ≡ ok a) × (d.tables ≡ t)))

module _ {A : Type 0} (c : Connection) where
  roll_back-IsAtomic :
      (out : Result StoreError A × Connection) (spec : A × Tables)
      → Follows c out spec
      → IsAtomic c (roll_back c.tables out) spec
  roll_back-IsAtomic (r, d) spec (same, inl (failed, fault)) =
      rw failed (same, inl (refl, fault, refl))
  roll_back-IsAtomic (r, d) spec (same, inr (done, left)) = rw done (same, inr (refl, left))

  pub in_transaction-IsAtomic :
      (body : Action A) (spec : A × Tables)
      → ((d : Connection) → d.tables ≡ c.tables → d.fails ≡ c.fails → Follows d (body d) spec)
      → IsAtomic c (in_transaction body c) spec
  unfolding in_transaction
  in_transaction-IsAtomic body (a, t) h =
      roll_back-IsAtomic ((attempt >>= λ u. body >>= λ x. attempt >>= λ v. pure x) c) (a, t)
        (bind-Follows c attempt (λ u. body >>= λ x. attempt >>= λ v. pure x) tt c.tables (a, t)
          (attempt-Follows c)
          (λ d left same.
            bind-Follows d body (λ x. attempt >>= λ v. pure x) a t (a, t) (h d left same)
              (λ d' left' same'.
                bind-Follows d' attempt (λ v. pure a) tt t (a, t)
                  (subst (λ u. Follows d' (attempt d') (tt, u)) left' (attempt-Follows d'))
                  (λ e there same''. (refl, inr (refl, there))))))

-- A query whose rows are then read: nothing is written, and the answer is that of the rows, or a use
-- failed.
abbrev pub Reads :
    {B : Type 0} → Connection → Result StoreError B × Connection → Result StoreError B → Type 0
Reads c (r, d) answer =
    (d.fails ≡ c.fails) × (d.tables ≡ c.tables) × (((r ≡ err query) × HasFault c) ⊎ (r ≡ answer))

module _ {A B : Type 0} where
  read_out :
      (c : Connection) (out : Result StoreError A × Connection) (a : A)
      (g : A → Result StoreError B)
      → Follows c out (a, c.tables)
      → (out.1.tables ≡ c.tables)
      → Reads c (((λ c'. out) >>= λ x. lift (g x)) c) (g a)
  read_out c (err e, d) a g (same, inl (failed, fault)) left =
      (same, left, inl (ground arith, fault))
  read_out c (err e, d) a g (same, inr (done, there)) left = ground arith
  read_out c (ok x, d) a g (same, inl (failed, fault)) left = ground arith
  read_out c (ok x, d) a g (same, inr (done, there)) left = (same, left, inr (ap g (ground arith)))

  pub select-Reads :
      (f : Tables → A) (g : A → Result StoreError B) (c : Connection)
      → Reads c ((select f >>= λ x. lift (g x)) c) (g (f c.tables))
  select-Reads f g c =
      read_out c (select f c) (f c.tables) g (select-Follows f c) (tables-select f c)

pub statement-IsAtomic :
    {A : Type 0} (f : Tables → A × Tables) (c : Connection)
    → IsAtomic c (statement f c) (f c.tables)
unfolding statement
statement-IsAtomic f c = elim (Bool-cases (c.fails c.uses)) [
  | inl e ↦ rw e (refl, inl (refl, (c.uses, e), refl))
  | inr e ↦ rw e (refl, inr (refl, refl))
]

-- ===== src/Store/Rules/Recorded.antt =====
-- A rule that `record_rule` of src/store/mod.rs has recorded, looked up again.
use npmfilter.Prelude.{ℕ, String, Option, none, some, ◌≡◌, refl, ap, subst, ◌∙◌, inl, inr, ◌⊎◌}
use npmfilter.Prelude.Dict
use npmfilter.Prelude.Dict.{pair_eq}
use npmfilter.Prelude.Result
use npmfilter.Prelude.Result.{Result, ok, err}
use npmfilter.External.{External}
use npmfilter.Policy.Memory.{Key}
use npmfilter.Store.Errors.{query}
use npmfilter.Store.Types.{NewRule, pins_to_json}
use npmfilter.Store.Tables.{Tables, RuleRow, put_rule, upsert_rule}
use npmfilter.Store.Connection.{Connection, statement, pure, lift, ◌>>=◌}
use npmfilter.Store.Connection.Follows.{
  HasFault, Follows, Reads, statement-Follows, bind-Follows, select-Reads,
}
use npmfilter.Store.Rows.{transpose, stored_rule}
use npmfilter.Store.Rows.Stored.{CanWrite, pins_written, stored_rule-rule_columns}
use npmfilter.Store.Rules.{rule_columns, stored_of, record_rule, try_lookup_rule}

get-put_rule_self :
    (key : Key) (row : RuleRow) (old : Option RuleRow) (t : Tables)
    → Dict.get key (put_rule key row old t).1.rules
      ≡ some (record row { id = (put_rule key row old t).0 })
unfolding put_rule
get-put_rule_self key row none t = Dict.get-insert_self key _ t.rules
get-put_rule_self key row (some old) t = Dict.get-insert_self key _ t.rules

get-upsert_rule_self :
    (key : Key) (row : RuleRow) (t : Tables)
    → Dict.get key (upsert_rule key row t).1.rules
      ≡ some (record row { id = (upsert_rule key row t).0 })
unfolding upsert_rule
get-upsert_rule_self key row t = get-put_rule_self key row (Dict.get key t.rules) t

module _ (env : External) (rule : NewRule) (now : env.Instant) where
  abbrev key : Key
  key = (rule.name, rule.version)

  -- The row that is written, and what the method does.
  record_rule-Follows :
      (text : Option String) (c : Connection)
      → transpose (pins_to_json env) rule.pins ≡ ok text
      → let (id, t) = upsert_rule key (rule_columns env rule text now) c.tables in
        Follows c (record_rule env rule now c) (stored_of env rule id now, t)
  unfolding record_rule
  record_rule-Follows text c written =
      let write = upsert_rule key (rule_columns env rule text now) in
      let (id, t) = write c.tables in
      bind-Follows c (lift (transpose (pins_to_json env) rule.pins))
        (λ pins. statement (upsert_rule key (rule_columns env rule pins now)) >>= λ n.
          pure (stored_of env rule n now))
        text c.tables (stored_of env rule id now, t) (refl, inr (written, refl))
        (λ d left same.
          bind-Follows d (statement write) (λ n. pure (stored_of env rule n now)) id t
            (stored_of env rule id now, t)
            (subst (λ u. Follows d (statement write d) (write u)) left (statement-Follows write d))
            (λ e there same'. (refl, inr (refl, there))))

  -- Where the pins can be written and the time is of whole seconds: a rule is recorded, and a lookup of
  -- its name and version then finds it as `record_rule` returned it, whichever rule was there before;
  -- or a use of the connection fails, in the one call or in the other.
  pub try_lookup_rule-record_rule :
      (c : Connection)
      → CanWrite env rule.pins
      → env.from_timestamp (env.timestamp now) ≡ some now
      → (((record_rule env rule now c).0 ≡ err query) × HasFault c)
        ⊎ ((id : ℕ) × ((record_rule env rule now c).0 ≡ ok (stored_of env rule id now))
            × Reads
                (record_rule env rule now c).1
                (try_lookup_rule env rule.name rule.version (record_rule env rule now c).1)
                (ok (some (stored_of env rule id now))))
  unfolding try_lookup_rule
  try_lookup_rule-record_rule c can whole =
      let (text, written, back) = pins_written env rule.pins can in
      let row = rule_columns env rule text now in
      let (id, t) = upsert_rule key row c.tables in
      let d = (record_rule env rule now c).1 in
      let (same, outcome) = record_rule-Follows text c written in
      elim outcome [
        | inl failed ↦ inl failed
        | inr (done, left) ↦ inr (
          id,
          done,
          subst (Reads d (try_lookup_rule env rule.name rule.version d))
              (ap (λ u. transpose (stored_rule env key) (Dict.get key u.rules)) left
                ∙ ap (transpose (stored_rule env key)) (get-upsert_rule_self key row c.tables)
                ∙ ap (λ r. Result.◌>>=◌ r (λ b. ok (some b)))
                    (stored_rule-rule_columns env rule id now text back whole))
              (select-Reads (λ u. Dict.get key u.rules) (transpose (stored_rule env key)) d),
        )
      ]

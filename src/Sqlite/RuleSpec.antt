-- ===== src/Sqlite/RuleSpec.antt =====
-- What the rule functions promise: a map from IDs to rules, and the refinement by the code.
use mathlib.Core.Option
use promolog.Prelude.{
  ℕ, ◌==◌, ℤ, Bool-cases, inl, inr, Option, none, some, ◌≡◌, refl, sym, ap, ◌∙◌, arith,
  if◌then◌else◌,
}
use promolog.Trace.{Time}
use promolog.Sqlite.Table.{Result, Result-cases, ok, err}
use promolog.Sqlite.RuleTable.{Stamped, RuleTable, find_rule, with_columns, IsRuleTable}
use promolog.Sqlite.Rules.{
  RuleError, insert_rule_failed, read_created_at_failed, update_rule_failed, delete_rule_failed,
  rule_not_found, changed, read_back, finish_create, create_in, update_in, delete_in,
}
use promolog.Sqlite.RuleViews.{
  View, put, eqb_ℤ_refl, find_rule-remove_rules, count_rules-none, count_rules-some,
  replace_rules-missing, replace_rules-found, remove_rules-missing, append_new,
}

pub data Request (R : Type 0) : Type 0 where
  create : R → Request R
  update : R → Request R
  delete : ℤ → Request R

pub data Reply (R E : Type 0) : Type 0 where
  created : R → Reply R E
  done : Reply R E
  refused : RuleError E → Reply R E

abbrev pub reply_of : {R E : Type 0} → Option (RuleError E) → Reply R E
reply_of none = done
reply_of (some e) = refused e

abbrev pub created_reply : {R E : Type 0} → Result (RuleError E) R → Reply R E
created_reply (ok r) = created r
created_reply (err e) = refused e

-- The maps agree.
abbrev pub SameView : {R : Type 0} → View R → View R → Type 0
SameView w v = (j : _) → w j ≡ v j

module _ {R : Type 0} (st : Stamped R) (E : Type 0) where
  -- A request on a map, its reply, and the map behind it. The ID of a new rule is one that no rule
  -- has; an error of the database changes nothing, save where only the time of creation could not be read.
  pub data Spec (v : View R) : Request R → Reply R E → View R → Type 0 where
    rule_created :
        {r : R} {w : View R} (i : ℤ) (t : Time)
        → v i ≡ none
        → SameView w (put i (some (st.stamp i t r)) v)
        → Spec v (create r) (created (st.stamp i t r)) w
    created_unread :
        {r : R} {w : View R} (i : ℤ) (t : Time) (e : E)
        → v i ≡ none
        → SameView w (put i (some (st.stamp i t r)) v)
        → Spec v (create r) (refused (read_created_at_failed e)) w
    create_failed :
        {r : R} {w : View R} (e : E)
        → SameView w v
        → Spec v (create r) (refused (insert_rule_failed e)) w
    rule_updated :
        {r : R} {w : View R} (q : R)
        → v (st.id r) ≡ some q
        → SameView w (put (st.id r) (some (with_columns st r q)) v)
        → Spec v (update r) done w
    update_missing :
        {r : R} {w : View R}
        → v (st.id r) ≡ none
        → SameView w v
        → Spec v (update r) (refused (rule_not_found (st.id r))) w
    update_failed :
        {r : R} {w : View R} (e : E)
        → SameView w v
        → Spec v (update r) (refused (update_rule_failed e)) w
    rule_deleted :
        {i : ℤ} {w : View R} (q : R)
        → v i ≡ some q
        → SameView w (put i none v)
        → Spec v (delete i) done w
    delete_missing :
        {i : ℤ} {w : View R}
        → v i ≡ none
        → SameView w v
        → Spec v (delete i) (refused (rule_not_found i)) w
    delete_failed :
        {i : ℤ} {w : View R} (e : E)
        → SameView w v
        → Spec v (delete i) (refused (delete_rule_failed e)) w

module _ {R : Type 0} (st : Stamped R) (T : RuleTable R) where
  abbrev pub perform : Request R → T.State → T.State × Reply R T.Error
  perform (create r) s = let out = create_in st T r s in (out.0, created_reply out.1)
  perform (update r) s = let out = update_in st T r s in (out.0, reply_of out.1)
  perform (delete i) s = let out = delete_in st T i s in (out.0, reply_of out.1)

  module _ (laws : IsRuleTable st T) where
    abbrev pub view : T.State → View R
    view s j = find_rule st j (laws.stored s)

    same_view : (s t : T.State) → laws.stored t ≡ laws.stored s → SameView (view t) (view s)
    same_view s t h j = ap (find_rule st j) h

    update_in-Spec :
        (r : R) (s : T.State) (res : Result T.Error ℕ)
        → (T.update_rule r s).1 ≡ res
        → Spec st T.Error
            (view s)
            (update r)
            (reply_of (changed update_rule_failed (st.id r) res))
            (view (T.update_rule r s).0)
    update_in-Spec r s (err e) h = update_failed e (same_view s _ (laws.update_rule_left r s e h))
    update_in-Spec r s (ok n) h =
        let (stored, number) = laws.rules_updated r s n h in
        elim (Bool-cases (n == 0)) [
          | inl zero_rows ↦
              let missing : view s (st.id r) ≡ none =
                count_rules-none st (st.id r) (laws.stored s) (ground (arith, number, zero_rows)) in
              rw zero_rows (
                update_missing missing (λ j.
                  ap (find_rule st j) stored
                  ∙ replace_rules-missing st r (laws.stored s) j missing))
          | inr some_rows ↦
              let (q, found) =
                count_rules-some st (st.id r) (laws.stored s) (ground (arith, number, some_rows)) in
              rw some_rows (
                rule_updated q found (λ j.
                  ap (find_rule st j) stored ∙ replace_rules-found st r q (laws.stored s) j found))
        ]

    delete_in-Spec :
        (i : ℤ) (s : T.State) (res : Result T.Error ℕ)
        → (T.delete_rule i s).1 ≡ res
        → Spec st T.Error
            (view s)
            (delete i)
            (reply_of (changed delete_rule_failed i res))
            (view (T.delete_rule i s).0)
    delete_in-Spec i s (err e) h = delete_failed e (same_view s _ (laws.delete_rule_left i s e h))
    delete_in-Spec i s (ok n) h =
        let (stored, number) = laws.rules_deleted i s n h in
        elim (Bool-cases (n == 0)) [
          | inl zero_rows ↦
              let missing : view s i ≡ none =
                count_rules-none st i (laws.stored s) (ground (arith, number, zero_rows)) in
              rw zero_rows (
                delete_missing missing (λ j.
                  ap (find_rule st j) stored ∙ remove_rules-missing st i (laws.stored s) j missing))
          | inr some_rows ↦
              let (q, found) =
                count_rules-some st i (laws.stored s) (ground (arith, number, some_rows)) in
              rw some_rows (
                rule_deleted q found
                  (λ j. ap (find_rule st j) stored ∙ find_rule-remove_rules st i j (laws.stored s)))
        ]

    read_back-time :
        (r : R) (i : ℤ) (t u : Time) (s : T.State)
        → view s i ≡ some (st.stamp i t r)
        → T.read_created_at i s ≡ ok u
        → u ≡ t
    read_back-time r i t u s there h =
        let same : some u ≡ some t =
          sym (laws.created_at_read i s u h)
          ∙ (ap (Option.map st.created_at) there ∙ ap some (st.created_at-stamp i t r)) in
        cc same

    create_in-Spec :
        (r : R) (s : T.State) (res : Result T.Error ℤ)
        → (T.insert_rule r s).1 ≡ res
        → Spec st T.Error
            (view s)
            (create r)
            (created_reply (finish_create st T r (T.insert_rule r s).0 res))
            (view (T.insert_rule r s).0)
    unfolding finish_create read_back
    create_in-Spec r s (err e) h = create_failed e (same_view s _ (laws.insert_rule_left r s e h))
    create_in-Spec r s (ok i) h =
        let (new, (t, stored)) = laws.rule_inserted r s i h in
        let after : T.State = (T.insert_rule r s).0 in
        let w : SameView (view after) (put i (some (st.stamp i t r)) (view s)) =
          λ j. ap (find_rule st j) stored ∙ append_new st i t r (laws.stored s) j new in
        elim (Result-cases (T.read_created_at i after)) [
          | inr (e, failed) ↦ rw (failed, finish_create, read_back) (created_unread i t e new w)
          | inl (u, got) ↦
              let there : view after i ≡ some (st.stamp i t r) =
                w i ∙ ap (λ b. if b then some (st.stamp i t r) else view s i) (eqb_ℤ_refl i) in
              rw (got, finish_create, read_back, read_back-time r i t u after there got)
                (rule_created i t new w)
        ]

    -- The functions that create, update and delete a rule refine the operations of a map from IDs to rules.
    pub rules-Spec :
        (req : Request R) (s : T.State)
        → Spec st T.Error (view s) req (perform req s).1 (view (perform req s).0)
    unfolding create_in update_in delete_in
    rules-Spec (create r) s = create_in-Spec r s (T.insert_rule r s).1 refl
    rules-Spec (update r) s = update_in-Spec r s (T.update_rule r s).1 refl
    rules-Spec (delete i) s = delete_in-Spec i s (T.delete_rule i s).1 refl

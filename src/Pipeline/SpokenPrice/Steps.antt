-- ===== src/Pipeline/SpokenPrice/Steps.antt =====
-- crates/murmur-core/src/pipeline/spoken_price.rs: each case of the fold's loop keeps its invariant.
use sitewalk.Base.{
  ℕ, ◌+◌, ◌≡◌, refl, sym, ap, ◌∙◌, true, false, not, some, List, ◌∷◌, any, map, All, Bool-cases,
  inl, inr,
}
use mathlib.Core.Path.{subst}
use sitewalk.Base.Text.{Text, text_eq}
use sitewalk.Base.TextMap.{insert}
use sitewalk.Base.CharTables.{CharTables}
use sitewalk.Base.Members.{In, AreDistinct, Differs, Differs-sym, In-All, In-map}
use sitewalk.Pipeline.SpokenPrice.Label.{self_priced, statement, tokenize, member}
use sitewalk.Pipeline.SpokenPrice.Ledger.{
  IsUntouched, IsPaid, paper_sum-insert, paper_sum-fold, IsUntouched-insert, IsUntouched-fold,
  IsPaid-insert, IsPaid-fold, IsPaid-self,
}
use sitewalk.Pipeline.SpokenPrice.Money.{
  line_id, Reason, Fair, Reason-later, is_open-plain, is_open-claim, other_kind, other_index,
  same_line,
}
use sitewalk.Pipeline.SpokenPrice.{
  Line, FoldState, is_plain, is_open, priced, absorb, settle_statement,
}

module _ (tables : CharTables) (ls : List Line) (distinct : AreDistinct (map line_id ls)) where
  module _ (n : Line) (rest : List Line) (n_in : In n ls) (sub : (l : Line) → In l rest → In l ls)
      (fresh : All (Differs (line_id n)) (map line_id rest))
      (priced_line : is_plain n.reading ≡ false) (st : FoldState) (total : ℕ)
      (fair : Fair tables ls (n ∷ rest) st total) where
    before : IsUntouched st.amounts st.folded_away (line_id n)
    before = fair.ahead n (inl refl) priced_line

    Differs-ahead : (l : Line) → In l rest → Differs (line_id n) (line_id l)
    Differs-ahead l i =
        In-All (Differs (line_id n)) (line_id l) (map line_id rest) (In-map line_id l rest i) fresh

    pub priced-Fair :
        (cents : ℕ) (title : Text) → Fair tables ls rest (priced n cents title st) (cents + total)
    unfolding priced
    priced-Fair cents title = record {
      clear = λ l i o.
          IsUntouched-insert st.amounts st.folded_away (line_id n) (line_id l) cents
            (other_kind ls distinct n l n_in i priced_line (is_open-plain st.claimed l o))
            (fair.clear l i o);
      ahead = λ l i p.
          IsUntouched-insert st.amounts st.folded_away (line_id n) (line_id l) cents
            (Differs-ahead l i) (fair.ahead l (inr i) p);
      counted =
          paper_sum-insert st.amounts st.folded_away (line_id n) cents (map line_id ls) distinct
            (In-map line_id n ls n_in) before
          ∙ ap (λ s. cents + s) fair.counted;
      explained = λ l i m.
          Reason-later tables ls (IsPaid st.amounts st.folded_away)
            (IsPaid (insert (line_id n) cents st.amounts) st.folded_away) l
            (λ m c i.
              IsPaid-insert st.amounts st.folded_away (line_id n) (line_id m) cents c before)
            (fair.explained l i m);
    }

    priced-IsPaid :
        (cents : ℕ) (title : Text)
        → IsPaid
            (priced n cents title st).amounts
            (priced n cents title st).folded_away
            (line_id n)
            cents
    unfolding priced
    priced-IsPaid cents title = IsPaid-self st.amounts st.folded_away (line_id n) cents before

    -- The statement's amount goes to `t`, and its own line goes.
    pub moved-Fair :
        (t : Line) (cents : ℕ) (title : Text) (tokens : List Text)
        → n.reading ≡ statement cents title tokens
        → In t ls
        → is_open st.claimed t ≡ true
        → any (member tokens) (tokenize tables t.item.text) ≡ true
        → Fair tables ls rest (settle_statement n cents title (some t) st) (cents + total)
    unfolding settle_statement
    moved-Fair t cents title tokens r t_in t_open shares =
        let t_plain = is_open-plain st.claimed t t_open in
        let t_before = fair.clear t t_in t_open in
        let amounts = insert (line_id t) cents st.amounts in
        let apart = other_kind ls distinct n t n_in t_in priced_line t_plain in
        let n_before =
          IsUntouched-insert st.amounts st.folded_away (line_id t) (line_id n) cents
            (Differs-sym (line_id n) (line_id t) apart) before in
        let later : (l : Line)
            → Reason tables ls (IsPaid st.amounts st.folded_away) l
            → Reason tables ls (IsPaid amounts (line_id n ∷ st.folded_away)) l =
          λ l.
            Reason-later tables ls (IsPaid st.amounts st.folded_away)
              (IsPaid amounts (line_id n ∷ st.folded_away)) l
              (λ m c i p. IsPaid-fold amounts st.folded_away (line_id n) (line_id m) c n_before.0 (
                IsPaid-insert st.amounts st.folded_away (line_id t) (line_id m) cents c t_before
                  p)) in
        record {
          clear = λ l i o.
              let (still, elsewhere) = is_open-claim t.index st.claimed l o in
              IsUntouched-fold amounts st.folded_away (line_id n) (line_id l)
                (other_kind ls distinct n l n_in i priced_line (is_open-plain st.claimed l still))
                (IsUntouched-insert st.amounts st.folded_away (line_id t) (line_id l) cents
                  (other_index ls distinct l t i t_in elsewhere) (fair.clear l i still));
          ahead = λ l i p.
              IsUntouched-fold amounts st.folded_away (line_id n) (line_id l) (Differs-ahead l i) (
                IsUntouched-insert st.amounts st.folded_away (line_id t) (line_id l) cents
                  (Differs-sym (line_id l) (line_id t)
                    (other_kind ls distinct l t (sub l i) t_in p t_plain))
                  (fair.ahead l (inr i) p));
          counted =
              paper_sum-fold amounts st.folded_away (line_id n) (map line_id ls) n_before.0
              ∙ paper_sum-insert st.amounts st.folded_away (line_id t) cents (map line_id ls)
                  distinct (In-map line_id t ls t_in) t_before
              ∙ ap (λ s. cents + s) fair.counted;
          explained = λ l i m. elim (Bool-cases (text_eq (line_id l) (line_id n))) [
            | inl e ↦
                subst (Reason tables ls (IsPaid amounts (line_id n ∷ st.folded_away)))
                  (sym (same_line ls distinct l n i n_in e))
                  (Reason.moved n t cents title tokens r t_in t_plain shares (
                    IsPaid-fold amounts st.folded_away (line_id n) (line_id t) cents n_before.0
                      (IsPaid-self st.amounts st.folded_away (line_id t) cents t_before)))
            | inr e ↦ later l (fair.explained l i (rw e at m))
          ];
        }

    -- The priced line takes the place of a bare line `v`.
    pub absorbed-Fair :
        (v : Line) (cents : ℕ) (title : Text)
        → n.reading ≡ self_priced cents title
        → In v ls
        → is_open st.claimed v ≡ true
        → any (λ w. not (member (tokenize tables title) w)) (tokenize tables v.item.text) ≡ false
        → Fair tables ls rest (absorb (some v) (priced n cents title st)) (cents + total)
    unfolding absorb priced
    absorbed-Fair v cents title r v_in v_open covers =
        let v_plain = is_open-plain st.claimed v v_open in
        let next = priced-Fair cents title in
        let amounts = insert (line_id n) cents st.amounts in
        let v_before = next.clear v v_in v_open in
        record {
          clear = λ l i o.
              let (still, elsewhere) = is_open-claim v.index st.claimed l o in
              IsUntouched-fold amounts st.folded_away (line_id v) (line_id l)
                (other_index ls distinct l v i v_in elsewhere) (next.clear l i still);
          ahead = λ l i p.
              IsUntouched-fold amounts st.folded_away (line_id v) (line_id l)
                (Differs-sym (line_id l) (line_id v)
                  (other_kind ls distinct l v (sub l i) v_in p v_plain))
                (next.ahead l i p);
          counted =
              paper_sum-fold amounts st.folded_away (line_id v) (map line_id ls) v_before.0
              ∙ next.counted;
          explained = λ l i m. elim (Bool-cases (text_eq (line_id l) (line_id v))) [
            | inl e ↦
                subst (Reason tables ls (IsPaid amounts (line_id v ∷ st.folded_away)))
                  (sym (same_line ls distinct l v i v_in e))
                  (Reason.covered v n cents title v_plain n_in r covers (
                    IsPaid-fold amounts st.folded_away (line_id v) (line_id n) cents v_before.0
                      (priced-IsPaid cents title)))
            | inr e ↦
                Reason-later tables ls (IsPaid amounts st.folded_away)
                  (IsPaid amounts (line_id v ∷ st.folded_away)) l
                  (λ m c i. IsPaid-fold amounts st.folded_away (line_id v) (line_id m) c v_before.0)
                  (next.explained l i (rw e at m))
          ];
        }

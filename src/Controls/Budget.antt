-- ===== src/Controls/Budget.antt =====
-- The monthly budget of internal/controls/controls.go.
use heave.Prelude.{
  ℕ, ◌+◌, ◌-◌, ◌≤◌, ◌<◌, ◌≡◌, refl, ap, ◌∙◌, inl, inr, ◌⊎◌, false, ◌&&◌, Option, none, some, List,
  [], ◌∷◌, ltb, arith, Bool-cases, Bytes, pos, -ℤ_parts, str_eq_iff,
}
use heave.Controls.{Error, budget_exceeded, ClientState, roll_month, reserve_state, settle_state}

roll_month-current : (st : ClientState) (month : Bytes) → (roll_month st month).month_key ≡ month
unfolding roll_month
roll_month-current st month = ground (arith, str_eq_iff st.month_key month)

roll_month-budget :
    (st : ClientState) (month : Bytes)
    → (roll_month st month).cfg.monthly_budget_usd ≡ st.cfg.monthly_budget_usd
unfolding roll_month
roll_month-budget st month = ground arith

-- Reserve answers by the cap: where the month's spend and the estimate together pass a positive cap
-- it is refused with the time left in the month and holds nothing; else it holds the estimate, and
-- the spend stays within a positive cap. Either way the month on record is the current one.
pub reserve_state_lem :
    (st : ClientState) (month : Bytes) (left est : ℕ)
    → let before = roll_month st month in
      let cap = st.cfg.monthly_budget_usd in
      let (after, failed) = reserve_state st month left est in
      ((failed ≡ some (budget_exceeded left))
        × (after ≡ before)
        × (0 < cap)
        × (cap < before.spent_usd + est)
        × (after.month_key ≡ month))
      ⊎ ((failed ≡ none)
          × (after.spent_usd ≡ before.spent_usd + est)
          × ((cap ≡ 0) ⊎ (after.spent_usd ≤ cap))
          × (after.month_key ≡ month))
unfolding reserve_state
reserve_state_lem st month left est =
    elim (Bool-cases
      (ltb 0 r.cfg.monthly_budget_usd && ltb r.cfg.monthly_budget_usd (r.spent_usd + est))) [
        | inl over ↦ rw over (
            inl
              (refl, refl, ground (arith, same), ground (arith, same), roll_month-current st month))
        | inr fits ↦ rw fits (inr (refl, refl, within fits, roll_month-current st month))
      ]
  where
    r : ClientState
    r = roll_month st month

    same : r.cfg.monthly_budget_usd ≡ st.cfg.monthly_budget_usd
    same = roll_month-budget st month

    within :
        ltb 0 r.cfg.monthly_budget_usd && ltb r.cfg.monthly_budget_usd (r.spent_usd + est) ≡ false
        → (st.cfg.monthly_budget_usd ≡ 0) ⊎ (r.spent_usd + est ≤ st.cfg.monthly_budget_usd)
    within fits = elim (Bool-cases (ltb 0 st.cfg.monthly_budget_usd)) [
      | inl bound ↦ inr (ground (arith, same, fits, bound))
      | inr free ↦ inl (ground (arith, free))
    ]

-- One call on a client's budget within one month: a hold of an estimate, or the settling of a hold.
pub data Call : Type 0 where
  reserves : ℕ → Call
  settles : ℕ → ℕ → Call

pub step : ClientState → Bytes → ℕ → Call → ClientState
step st month left (reserves est) = (reserve_state st month left est).0
step st month left (settles held actual) = settle_state st held (pos actual)

-- The holds that were granted and not settled yet, and the amounts settled.
pub record Books : Type 0 where
  pub held : ℕ
  pub settled : ℕ

book_hold : Option Error → ℕ → Books → Books
book_hold none est b = record b { held = b.held + est }
book_hold (some e) est b = b

pub book : ClientState → Bytes → ℕ → Call → Books → Books
book st month left (reserves est) b = book_hold (reserve_state st month left est).1 est b
book st month left (settles amount actual) b = record {
  held = b.held - amount;
  settled = b.settled + actual;
}

-- Every settled hold was granted and is outstanding.
abbrev pub Proper : Books → Call → Type 0
Proper b (reserves est) = Unit
Proper b (settles amount actual) = amount ≤ b.held

pub record Run : Type 0 where
  pub state : ClientState
  pub books : Books

unfoldable pub next : Run → Bytes → ℕ → Call → Run
unfolding step book book_hold
next r month left c = record {
  state = step r.state month left c;
  books = book r.state month left c r.books;
}

pub run : Run → Bytes → ℕ → List Call → Run
run r month left [] = r
run r month left (c ∷ calls) = run (next r month left c) month left calls

abbrev pub AllProper : Run → Bytes → ℕ → List Call → Type 0
AllProper r month left [] = Unit
AllProper r month left (c ∷ calls) =
    Proper r.books c × AllProper (next r month left c) month left calls

-- The spend on record is what is held and what was settled, in the current month.
pub record Balanced (r : Run) (month : Bytes) : Type 0 where
  pub current : r.state.month_key ≡ month
  pub balance : r.state.spent_usd ≡ r.books.held + r.books.settled

roll_month_same :
    (st : ClientState) (month : Bytes) → st.month_key ≡ month → roll_month st month ≡ st
unfolding roll_month
roll_month_same st month e = ground (arith, str_eq_iff st.month_key month)

next-Balanced :
    (r : Run) (month : Bytes) (left : ℕ) (c : Call)
    → Proper r.books c
    → Balanced r month
    → Balanced (next r month left c) month
unfolding next book_hold
next-Balanced r month left (reserves est) p b =
    let stay = roll_month_same r.state month b.current in
    elim (reserve_state_lem r.state month left est) [
      | inl (failed, after, _, _, month') ↦ record {
        current = month';
        balance = rw failed (ap (λ (st : ClientState). st.spent_usd) (after ∙ stay) ∙ b.balance);
      }
      | inr (passed, after, _, month') ↦ record {
        current = month';
        balance =
            rw passed (
              after
              ∙ ap (λ (st : ClientState). st.spent_usd + est) stay
              ∙ omega (arith, b.balance));
      }
    ]
next-Balanced r month left (settles amount actual) p b =
    unfold settle_state in
    record {
      current = b.current;
      balance = ground (arith, b.balance, p, -ℤ_parts (pos actual) (pos amount));
    }

-- Within a month, after any reserves and settles that settle only what is held, the spend on record
-- is what was settled and what is still held.
pub run-Balanced :
    (r : Run) (month : Bytes) (left : ℕ) (calls : List Call)
    → AllProper r month left calls
    → Balanced r month
    → Balanced (run r month left calls) month
unfolding run
run-Balanced r month left [] p b = b
run-Balanced r month left (c ∷ calls) p b =
    run-Balanced (next r month left c) month left calls p.1 (next-Balanced r month left c p.0 b)

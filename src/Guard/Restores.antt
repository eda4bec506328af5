-- ===== src/Guard/Restores.antt =====
-- What a gate of internal/firewall/firewall.go holds in this process, and that it can be released
-- again, in its local steps.
use heave.Prelude.{
  ℕ, ◌≡◌, refl, ◌∙◌, Bool, true, false, none, List, [], ◌∷◌, map, if◌then◌else◌, arith, Bytes,
}
use heave.Firewall.Errors.{Error, killed}
use heave.Firewall.State.{Firewall, Scope, Ticket, Result, ok, err}
use heave.Firewall.Local.{to_scope_keys}
use heave.Firewall.Local.View.{Inv, load}
use heave.Firewall.Enter.{
  Admission, admitted, tripped, denied, is_killed, do_kill, local_ticket, reserve_or_roll_back,
  settle_admission,
}
use heave.Firewall.Enter.Gate.{was_admitted, roll_back-load}
use heave.Firewall.Tickets.{release}
use heave.Firewall.Tickets.Undo.{roll_back-release}
use mathlib.Core.Path.{subst}
use heave.Config.Checks.{is_nil}

module _ {ℓ} {S : Type ℓ} where
  -- A gate's answer at `now`: the load of the scope is as before, which the ticket, if there is one,
  -- does not hold; or it is so again once the ticket, which has no shared store, is released.
  pub data IsUndoable (now : ℕ) (k : Bytes) (f : Firewall S)
      : Firewall S × Result (Ticket S) → Type ℓ where
    refused :
        (g : Firewall S) (e : Error) → load g now k ≡ load f now k → IsUndoable now k f (g, err e)
    keyless :
        (g : Firewall S) (tk : Ticket S)
        → tk.scope_keys ≡ []
        → load g now k ≡ load f now k
        → IsUndoable now k f (g, ok tk)
    held :
        (g : Firewall S) (tk : Ticket S)
        → tk.store ≡ none
        → is_nil tk.scope_keys ≡ false
        → load (release g tk now).0 now k ≡ load f now k
        → IsUndoable now k f (g, ok tk)

  do_kill_scopes :
      (f : Firewall S) (run : Bytes) (now : ℕ) → (do_kill f run now).0.scopes ≡ f.scopes
  unfolding do_kill
  do_kill_scopes f run now = ground arith

  pub is_killed_scopes :
      (f : Firewall S) (run : Bytes) (now : ℕ) → (is_killed f run now).0.scopes ≡ f.scopes
  unfolding is_killed
  is_killed_scopes f run now = ground arith

  -- A load is read off the scopes alone.
  pub load_scopes :
      (f g : Firewall S) (now : ℕ) (k : Bytes) → f.scopes ≡ g.scopes → load f now k ≡ load g now k
  unfolding load
  load_scopes f g now k e = rw e refl

  pub Inv-scopes : (f g : Firewall S) → f.scopes ≡ g.scopes → Inv g → Inv f
  Inv-scopes f g e v = record { unique = rw e v.unique; shaped = λ k. rw e (v.shaped k) }

  settle_admission-IsUndoable :
      (f : Firewall S) (x : Firewall S × Admission (Ticket S)) (run : Bytes) (now : ℕ) (k : Bytes)
      → (was_admitted x.1 ≡ false → load x.0 now k ≡ load f now k)
      → ((tk : Ticket S) → x.1 ≡ admitted tk → IsUndoable now k f (x.0, ok tk))
      → IsUndoable now k f (settle_admission x run now)
  unfolding settle_admission
  settle_admission-IsUndoable f (g, admitted tk) run now k h held_tk = held_tk tk refl
  settle_admission-IsUndoable f (g, tripped) run now k h held_tk =
      refused (do_kill g run now).0 killed
        (load_scopes (do_kill g run now).0 g now k (do_kill_scopes g run now) ∙ h refl)
  settle_admission-IsUndoable f (g, denied e) run now k h held_tk = refused g e (h refl)

  pub rebase :
      (f g : Firewall S) (x : Firewall S × Result (Ticket S)) (now : ℕ) (k : Bytes)
      → load g now k ≡ load f now k
      → IsUndoable now k g x
      → IsUndoable now k f x
  rebase f g _ now k same (refused h e loads) = refused h e (loads ∙ same)
  rebase f g _ now k same (keyless h tk bare loads) = keyless h tk bare (loads ∙ same)
  rebase f g _ now k same (held h tk alone keyed loads) = held h tk alone keyed (loads ∙ same)

  -- What runs under the lock answers so that it can be undone.
  pub record Restores (now : ℕ) (k : Bytes) (f : Firewall S) (x : Firewall S × Admission (Ticket S))
      : Type ℓ where
    pub off : was_admitted x.1 ≡ false → load x.0 now k ≡ load f now k
    pub on : (tk : Ticket S) → x.1 ≡ admitted tk → IsUndoable now k f (x.0, ok tk)

  pub settled-IsUndoable :
      (f : Firewall S) (x : Firewall S × Admission (Ticket S)) (run : Bytes) (now : ℕ) (k : Bytes)
      → Restores now k f x
      → IsUndoable now k f (settle_admission x run now)
  settled-IsUndoable f x run now k r = settle_admission-IsUndoable f x run now k r.off r.on

  pub rebase-Restores :
      (f g : Firewall S) (x : Firewall S × Admission (Ticket S)) (now : ℕ) (k : Bytes)
      → load g now k ≡ load f now k
      → Restores now k g x
      → Restores now k f x
  rebase-Restores f g x now k same r = record {
    off = λ h. r.off h ∙ same;
    on = λ tk h. rebase f g _ now k same (r.on tk h);
  }

  pub branch-Restores :
      (f : Firewall S) (now : ℕ) (k : Bytes) (test : Bool) (x y : Firewall S × Admission (Ticket S))
      → Restores now k f x
      → Restores now k f y
      → Restores now k f (if test then x else y)
  branch-Restores f now k true x y on off = on
  branch-Restores f now k false x y on off = off

  pub keyless-Restores :
      (f g : Firewall S) (tk : Ticket S) (now : ℕ) (k : Bytes)
      → tk.scope_keys ≡ []
      → load g now k ≡ load f now k
      → Restores now k f (g, admitted tk)
  keyless-Restores f g tk now k bare loads = record {
    off = λ h. absurd (ground arith);
    on = λ tk' h.
        let same : tk ≡ tk' = ground arith in
        subst (λ t. IsUndoable now k f (g, ok t)) same (keyless g tk bare loads);
  }

  pub refused-Restores :
      (f g : Firewall S) (e : Error) (now : ℕ) (k : Bytes)
      → load g now k ≡ load f now k
      → Restores now k f (g, denied e)
  refused-Restores f g e now k loads = record {
    off = λ h. loads;
    on = λ tk h. absurd (ground arith);
  }

  pub tripped-Restores :
      (f g : Firewall S) (now : ℕ) (k : Bytes)
      → load g now k ≡ load f now k
      → Restores now k f (g, tripped)
  tripped-Restores f g now k loads = record { off = λ h. loads; on = λ tk h. absurd (ground arith) }

  -- The local check and reserve, which is also what stands in for a shared store that fails.
  roll_back_ticket :
      (f : Firewall S) (scopes : List Scope) (key : Bytes) (u t now : ℕ) (tk : Ticket S)
      → (reserve_or_roll_back f scopes key u t now).1 ≡ admitted tk
      → (tk.store ≡ none) × (tk.scope_keys ≡ map (λ sk. sk.map_key) (to_scope_keys scopes))
  unfolding reserve_or_roll_back local_ticket
  roll_back_ticket f scopes key u t now tk h = (ground arith, ground arith)

  roll_back-IsUndoable :
      (f : Firewall S) (scopes : List Scope) (key : Bytes) (u t now : ℕ) (k : Bytes) (tk : Ticket S)
      → Inv f
      → (reserve_or_roll_back f scopes key u t now).1 ≡ admitted tk
      → IsUndoable now k f ((reserve_or_roll_back f scopes key u t now).0, ok tk)
  unfolding to_scope_keys
  roll_back-IsUndoable f [] key u t now k tk v h =
      let mine = roll_back_ticket f [] key u t now tk h in
      keyless _ tk (rw mine.1 refl) (roll_back-load f [] key u t now k v ∙ rw h (ground arith))
  roll_back-IsUndoable f (sc ∷ scopes) key u t now k tk v h =
      let mine = roll_back_ticket f (sc ∷ scopes) key u t now tk h in
      held _ tk mine.0 (rw mine.1 refl) (roll_back-release f (sc ∷ scopes) key u t now tk k h)

  pub roll_back-Restores :
      (f : Firewall S) (scopes : List Scope) (key : Bytes) (u t now : ℕ) (k : Bytes)
      → Inv f
      → Restores now k f (reserve_or_roll_back f scopes key u t now)
  roll_back-Restores f scopes key u t now k v = record {
    off = λ out. roll_back-load f scopes key u t now k v ∙ rw out refl;
    on = λ tk h. roll_back-IsUndoable f scopes key u t now k tk v h;
  }

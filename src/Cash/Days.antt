-- ===== src/Cash/Days.antt =====
-- The cash desk as a sequence of calls, by any administrators.
use tunisia_vape_commerce.Prelude.{
  List, Result, Result-cases, [], err, inl, inr, ok, refl, ℕ, ◌>>=◌, ◌∷◌, ◌≡◌,
}
use tunisia_vape_commerce.Cash.{CashError, Desk}
use tunisia_vape_commerce.Cash.Collect.{Hashes, RecordInput, Recorded, record_collection}
use tunisia_vape_commerce.Cash.Remit.{RemittanceInput, create_remittance, submit_remittance}
use tunisia_vape_commerce.Cash.Reconcile.{ReconcileInput, reconcile_remittance}
use tunisia_vape_commerce.Cash.Resolve.{ResolveInput, resolve_discrepancy}
use tunisia_vape_commerce.Cash.Accounts.{
  AllAccount, AllAccount-refl, AllAccount-trans, record_collection-AllAccount,
}
use tunisia_vape_commerce.Cash.Operations.{
  create_remittance-AllAccount, reconcile_remittance-AllAccount, submit_remittance-AllAccount,
}
use tunisia_vape_commerce.Cash.Resolutions.{resolve_discrepancy-AllAccount}

pub data Call : Type 0 where
  collect : ℕ → ℕ → ℕ → ℕ → RecordInput → Call
  create : ℕ → RemittanceInput → Call
  submit : ℕ → ℕ → Call
  reconcile : ℕ → ℕ → ℕ → ReconcileInput → Call
  resolve : ℕ → ℕ → ResolveInput → Call

-- A call that throws rolls back.
abbrev or_before : Result CashError Desk → Desk → Desk
or_before (ok s') s = s'
or_before (err e) s = s

unfoldable pub serve : Hashes → Call → Desk → Desk
unfolding record_collection create_remittance submit_remittance reconcile_remittance
    resolve_discrepancy
serve hashes (collect actor fresh key id input) s =
    or_before
      (record_collection hashes actor fresh key id input s >>= λ (p : Desk × Recorded). ok p.0) s
serve hashes (create fresh input) s = or_before (create_remittance fresh input s) s
serve hashes (submit actor id) s = or_before (submit_remittance actor id s) s
serve hashes (reconcile actor fresh id input) s =
    or_before (reconcile_remittance actor fresh id input s) s
serve hashes (resolve actor id input) s = or_before (resolve_discrepancy actor id input s) s

unfoldable pub serve_all : Hashes → List Call → Desk → Desk
unfolding serve
serve_all hashes [] s = s
serve_all hashes (c ∷ calls) s = serve_all hashes calls (serve hashes c s)

rolled_back :
    (call : Result CashError Desk) (s : Desk)
    → ((s' : Desk) → call ≡ ok s' → AllAccount s s')
    → AllAccount s (or_before call s)
rolled_back (ok s') s h = h s' refl
rolled_back (err e) s h = AllAccount-refl s

serve-AllAccount : (hashes : Hashes) (c : Call) (s : Desk) → AllAccount s (serve hashes c s)
unfolding serve
serve-AllAccount hashes (collect actor fresh key id input) s =
    elim (Result-cases (record_collection hashes actor fresh key id input s)) [
      | inl ((s', r), e) ↦
          rw e (record_collection-AllAccount hashes actor fresh key id input s s' r e)
      | inr (x, e) ↦ rw e (AllAccount-refl s)
    ]
serve-AllAccount hashes (create fresh input) s =
    rolled_back (create_remittance fresh input s) s (create_remittance-AllAccount fresh input s)
serve-AllAccount hashes (submit actor id) s =
    rolled_back (submit_remittance actor id s) s (submit_remittance-AllAccount actor id s)
serve-AllAccount hashes (reconcile actor fresh id input) s =
    rolled_back (reconcile_remittance actor fresh id input s) s
      (reconcile_remittance-AllAccount actor fresh id input s)
serve-AllAccount hashes (resolve actor id input) s =
    rolled_back (resolve_discrepancy actor id input s) s
      (resolve_discrepancy-AllAccount actor id input s)

-- Over any sequence of calls of the cash desk, by anyone, those that fail included: no collection is
-- lost or exchanged, what was expected of it stays, the cash that was counted for it is never
-- rewritten nor counted anew, and a remitted collection stays remitted.
pub serve_all-AllAccount :
    (hashes : Hashes) (calls : List Call) (s : Desk) → AllAccount s (serve_all hashes calls s)
unfolding serve_all
serve_all-AllAccount hashes [] s = AllAccount-refl s
serve_all-AllAccount hashes (c ∷ calls) s =
    AllAccount-trans s (serve hashes c s) (serve_all hashes calls (serve hashes c s))
      (serve-AllAccount hashes c s) (serve_all-AllAccount hashes calls (serve hashes c s))

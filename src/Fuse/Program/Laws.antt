-- ===== src/Fuse/Program/Laws.antt =====
-- The file system of the program of crates/ledgerfs-fuse/src/bin/ledgerfs-fuse.rs.
use mathlib.Core.List.{Permᴰ}
use mathlib.Core.Path.{subst}
use ledgerfs.Prelude.{
  ℕ, zero, suc, get_elem?, ◌≡◌, refl, true, some, List, [], ◌∷◌, ok, map, All, arith, Bool-cases,
  inl, inr,
}
use ledgerfs.Prelude.Perm.{All-Perm}
use ledgerfs.Prelude.Int.{pos}
use ledgerfs.Core.Types.{AccountId, Account, Balance, usd, eur, account_id_eq, account_id_eq_iff}
use ledgerfs.Fuse.Attributes.{Services}
use ledgerfs.Fuse.Program.{
  Environment, mock_balance, main_services, hash_insert, hash_get, new_balances, new_accounts,
  mock_transactions,
}

-- The account has a balance of its own, in its currency.
abbrev pub HasBalance : Services → Account → Type 0
HasBalance s acc =
    (balance : Balance) × (s.get_balance acc.id ≡ ok (some balance))
    × (balance.account_id ≡ acc.id)
    × (balance.currency ≡ acc.metadata.currency)

All-get :
    {A : Type 0} (P : A → Type 0) (l : List A) (i : ℕ) (a : A)
    → All P l
    → get_elem? l i ≡ some a
    → P a
All-get P [] i a h k = absurd (cc k)
All-get P (x ∷ l) zero a h k = subst P (ground arith) h.0
All-get P (x ∷ l) (suc i) a h k = All-get P l i a h.1 k

eq_self : (a : AccountId) → account_id_eq a a ≡ true
eq_self a = (account_id_eq_iff a a).1 refl

module _ (env : Environment) (a b : AccountId) where
  accounts_have_balances :
      All
        (HasBalance (main_services env a b))
        (map (λ entry. entry.1) (new_accounts env.account_clock (a ∷ b ∷ [])))
  unfolding main_services new_accounts new_balances hash_insert hash_get
  accounts_have_balances =
      let first = mock_balance a (pos 100000) usd (env.balance_clock 0) in
      let second = mock_balance b (pos 250000) eur (env.balance_clock 1) in
      elim (Bool-cases (account_id_eq a b)) [
        | inl same ↦ rw same ((second, rw same refl, refl, refl), tt)
        | inr differ ↦ rw differ (
          (first, rw (eq_self a) refl, refl, refl),
          ((second, rw differ (rw (eq_self b) refl), refl, refl), tt),
        )
      ]

  found_accounts :
      (main_services env a b).find_accounts
      ≡ ok (env.order (map (λ entry. entry.1) (new_accounts env.account_clock (a ∷ b ∷ []))))
  unfolding main_services
  found_accounts = refl

  -- An account that a listing finds has a balance.
  pub found-HasBalance :
      (accounts : List Account) (i : ℕ) (acc : Account)
      → ((l : List Account) → Permᴰ (env.order l) l)
      → (main_services env a b).find_accounts ≡ ok accounts
      → get_elem? accounts i ≡ some acc
      → HasBalance (main_services env a b) acc
  found-HasBalance accounts i acc any_order listed here =
      let s = main_services env a b in
      let all = All-Perm (HasBalance s) (any_order _) accounts_have_balances in
      All-get (HasBalance s) accounts i acc
        (subst (All (HasBalance s)) (cc (found_accounts, listed)) all) here

  -- The history of every account is the five sample transactions.
  pub history_of :
      (id : AccountId)
      → (main_services env a b).get_transaction_history id (some 100)
        ≡ ok (mock_transactions env.history_clock env.fresh id env.drawn 0 5)
  unfolding main_services
  history_of id = refl

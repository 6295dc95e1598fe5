-- ===== src/Fuse/Program.antt =====
-- crates/ledgerfs-fuse/src/bin/ledgerfs-fuse.rs: the repositories that the program serves. A
-- `HashMap` is an association list with one pair for each key; `order` is the order in which its
-- values are iterated, `clock` and `fresh` give the i-th time and the i-th new identifier.
pub mod Laws
pub mod Walk
pub mod Main
mod Tests
use Prim.Native.Nat.{min}
use Prim.Native.String.{◌++◌ as append_text}
use ledgerfs.Prelude.{
  ℕ, zero, suc, ◌+◌, ◌*◌, ◌-◌, ◌%◌, String, Bool, true, false, Option, none, some, List, [], ◌∷◌,
  Result, ok, err, map, leb, length, ◌==◌, if◌then◌else◌,
}
use ledgerfs.Prelude.Int.{ℤ, pos, ◌-ℤ◌}
use ledgerfs.Prelude.Bytes.{Bytes}
use ledgerfs.Core.Types.{
  AccountId, TransactionId, Account, Balance, Currency, DateTime, usd, eur, active, customer,
  credit, debit, account_id_eq,
}
use ledgerfs.Core.Amount.{new}
use ledgerfs.Core.Events.{TransactionProcessedEvent}
use ledgerfs.Core.Errors.{LedgerResult}
use ledgerfs.Core.Traits.{Call, Criteria, BalanceRepository, AccountRepository, QueryService}
use ledgerfs.Fuse.Paths.{UuidText}
use ledgerfs.Fuse.Attributes.{Services}

module _ {V : Type 0} where
  unfoldable pub hash_insert : AccountId → V → List (AccountId × V) → List (AccountId × V)
  hash_insert key value [] = (key, value) ∷ []
  hash_insert key value ((k, v) ∷ entries) =
      let rest = hash_insert key value entries in
      if account_id_eq k key then (k, value) ∷ entries else (k, v) ∷ rest

  unfoldable pub hash_get : List (AccountId × V) → AccountId → Option V
  hash_get [] key = none
  hash_get ((k, v) ∷ entries) key = if account_id_eq k key then some v else hash_get entries key

-- `MockBalanceRepository::new`.
abbrev pub mock_balance : AccountId → ℤ → Currency → DateTime → Balance
mock_balance id amount currency now = record {
  account_id = id;
  amount = new amount;
  currency = currency;
  as_of = now;
  version = 1;
}

unfoldable pub new_balances : (ℕ → DateTime) → List AccountId → List (AccountId × Balance)
new_balances clock (a ∷ b ∷ accounts) =
    hash_insert b (mock_balance b (pos 250000) eur (clock 1))
      (hash_insert a (mock_balance a (pos 100000) usd (clock 0)) [])
new_balances clock [] = []
new_balances clock (a ∷ []) = []

-- `filter_map` of `get_balances`.
pub find_balances : List (AccountId × Balance) → List AccountId → List Balance
find_balances balances [] = []
find_balances balances (id ∷ ids) =
    let rest = find_balances balances ids in
    elim (hash_get balances id) [ none ↦ rest | some balance ↦ balance ∷ rest ]

abbrev pub mock_balance_repository : BalanceRepository (List (AccountId × Balance))
mock_balance_repository = record {
  get_balance = λ account_id balances. (ok (hash_get balances account_id), balances);
  update_balance = λ balance balances. (ok tt, balances);
  get_balances = λ account_ids balances. (ok (find_balances balances account_ids), balances);
}

-- `MockAccountRepository::new`.
abbrev pub mock_account :
    AccountId → Currency → String → List String → DateTime → DateTime → Account
mock_account id currency customer_id flags created updated = record {
  id = id;
  status = active;
  metadata = record {
    account_type = customer;
    currency = currency;
    tags = ("customer_id", customer_id) ∷ [];
    regulatory_flags = flags;
  };
  created_at = created;
  updated_at = updated;
}

unfoldable pub new_accounts : (ℕ → DateTime) → List AccountId → List (AccountId × Account)
new_accounts clock (a ∷ b ∷ accounts) =
    hash_insert b
      (mock_account b eur "cust_002" ("KYC_VERIFIED" ∷ "PEP_CHECK" ∷ []) (clock 2) (clock 3))
      (hash_insert a (mock_account a usd "cust_001" ("KYC_VERIFIED" ∷ []) (clock 0) (clock 1)) [])
new_accounts clock [] = []
new_accounts clock (a ∷ []) = []

abbrev pub mock_account_repository :
    (List Account → List Account) → AccountRepository (List (AccountId × Account))
mock_account_repository order = record {
  get_account = λ account_id accounts. (ok (hash_get accounts account_id), accounts);
  save_account = λ account accounts. (ok tt, accounts);
  find_accounts = λ criteria accounts. (ok (order (map (λ entry. entry.1) accounts)), accounts);
}

-- `format!("{}", i)` of a number below five.
abbrev digit : ℕ → String
digit i =
    if i == 0
    then "0"
    else if i == 1
    then "1"
    else if i == 2
    then "2"
    else if i == 3
    then "3"
    else "4"

-- The i-th round of the loop of `get_transaction_history`, after `drawn` rounds of earlier calls: each
-- round draws an identifier and reads the clock.
abbrev pub mock_transaction :
    (ℕ → DateTime) → (ℕ → TransactionId) → AccountId → ℕ → ℕ → TransactionProcessedEvent
mock_transaction clock fresh account_id drawn i =
    let is_credit = i % 2 == 0 in
    record {
      transaction_id = fresh (drawn + i);
      transaction_type = if is_credit then credit else debit;
      from_account = if is_credit then none else some account_id;
      to_account = if is_credit then some account_id else none;
      amount = new (pos ((i + 1) * 1000));
      currency = usd;
      metadata = record {
        reference = some (append_text "REF_00" (digit i));
        description = some (append_text "Test transaction " (digit i));
        tags = [];
        regulatory_flags = [];
      };
      processed_at = clock (drawn + i) -ℤ pos (i * 3600000000000);
    }

abbrev or_ten : Option ℕ → ℕ
or_ten none = 10
or_ten (some limit) = limit

module _ (clock : ℕ → DateTime) (fresh : ℕ → TransactionId) where
  pub mock_transactions : AccountId → ℕ → ℕ → ℕ → List TransactionProcessedEvent
  mock_transactions account_id drawn i zero = []
  mock_transactions account_id drawn i (suc rounds) =
      mock_transaction clock fresh account_id drawn i
      ∷ mock_transactions account_id drawn (i + 1) rounds

  -- Its state is the number of rounds so far.
  abbrev pub mock_query_service : QueryService ℕ
  mock_query_service = record {
    get_balance_at_time = λ account_id timestamp s. (ok none, s);
    get_transaction_history = λ account_id from to limit s.
        let rounds = min (or_ten limit) 5 in
        (ok (mock_transactions account_id s 0 rounds), s + rounds);
    search_transactions = λ criteria limit s. (ok [], s);
  }

-- The calls that the file system makes of its three repositories, each in the state that they then
-- have.
abbrev pub services_of :
    {A B C : Type 0}
    → BalanceRepository A × A
    → AccountRepository B × B
    → QueryService C × C
    → (Balance → Bytes)
    → (AccountId → List TransactionProcessedEvent → Bytes)
    → UuidText
    → Services
services_of (balance_repo, a) (account_repo, b) (query_service, c) balance_json transactions_json
      uuid_text =
    record {
      get_balance = λ account_id. (balance_repo.get_balance account_id a).0;
      find_accounts = (account_repo.find_accounts [] b).0;
      get_transaction_history = λ account_id limit.
          (query_service.get_transaction_history account_id none none limit c).0;
      balance_json = balance_json;
      transactions_json = transactions_json;
      uuid_text = uuid_text;
    }

-- What `main` hands to the mount manager: the times that the repositories read, each in the order of
-- its reads, and the identifiers drawn; `drawn` is how many rounds of `get_transaction_history` the
-- earlier reads of a file have run.
pub record Environment : Type 0 where
  pub balance_clock : ℕ → DateTime
  pub account_clock : ℕ → DateTime
  pub history_clock : ℕ → DateTime
  pub fresh : ℕ → TransactionId
  pub drawn : ℕ
  pub order : List Account → List Account
  pub balance_json : Balance → Bytes
  pub transactions_json : AccountId → List TransactionProcessedEvent → Bytes
  pub uuid_text : UuidText

unfoldable pub main_services : Environment → AccountId → AccountId → Services
main_services env first second =
    let account_ids = first ∷ second ∷ [] in
    services_of (mock_balance_repository, new_balances env.balance_clock account_ids)
      (mock_account_repository env.order, new_accounts env.account_clock account_ids)
      (mock_query_service env.history_clock env.fresh, env.drawn) env.balance_json
      env.transactions_json env.uuid_text

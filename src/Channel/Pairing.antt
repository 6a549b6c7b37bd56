-- ===== src/Channel/Pairing.antt =====
-- The store and the gate. The two tables are lists of rows with their primary keys. Arguments say
-- whether a statement of the database succeeds, what the clock reads and which code is drawn.
pub mod Approved
pub mod Flow
use cyntr.Common.{
  ℕ, ◌+◌, String, Bool, true, false, not, ◌&&◌, ◌||◌, List, [], ◌∷◌, ◌++◌, Option, none, some, ◌==◌,
  if◌then◌else◌, string_eq, nat_eq, any, select,
}
use cyntr.Common.Dict.{Dict, get, put}
use cyntr.Common.Text.{trim_space}
use cyntr.Common.Order.{sort_by}
use cyntr.Common.{ltb}

pub record Sender : Type 0 where
  pub tenant : String
  pub channel : String
  pub user_id : String

pub record Pending : Type 0 where
  pub sender : Sender
  pub code : String
  pub created_at : ℕ

pub record PairingStore : Type 0 where
  pub paired : List Sender
  pub pending : List Pending

abbrev pub same_sender : Sender → Sender → Bool
same_sender a b =
    if a.tenant == b.tenant
    then (if a.channel == b.channel then a.user_id == b.user_id else false)
    else false

-- A row of paired_senders is the sender's.
unfoldable pub has_sender : Sender → PairingStore → Bool
has_sender s store = any (same_sender s) store.paired

-- IsPaired: where the query fails, its count stays 0.
unfoldable pub is_paired : Bool → Sender → PairingStore → Bool
unfolding has_sender
is_paired read s store = if read then has_sender s store else false

-- INSERT … ON CONFLICT(tenant, channel, user_id) DO UPDATE SET code, created_at
unfoldable pub upsert : Sender → String → ℕ → List Pending → List Pending
upsert s code now [] = record { sender = s; code = code; created_at = now } ∷ []
upsert s code now (p ∷ ps) =
    let rest = upsert s code now ps in
    if same_sender s p.sender then record p { code = code; created_at = now } ∷ ps else p ∷ rest

-- IssueCode: `drawn` is none where reading random bytes fails. The result is none on an error.
abbrev pub issue_drawn :
    Option String → ℕ → Bool → Sender → PairingStore → PairingStore × Option String
issue_drawn none now ok s store = (store, none)
issue_drawn (some code) now false s store = (store, none)
issue_drawn (some code) now true s store =
    (record store { pending = upsert s code now store.pending }, some code)

unfoldable pub issue_code :
    Option String → ℕ → Bool → Sender → PairingStore → PairingStore × Option String
unfolding upsert
issue_code drawn now ok s store = issue_drawn drawn now ok s store

-- approveLocked: INSERT OR IGNORE, then a DELETE whose failure is ignored. The result is whether nil
-- is returned.
unfoldable pub approve_locked : Bool → Bool → Sender → PairingStore → PairingStore × Bool
unfolding has_sender
approve_locked inserted deleted s store =
    if inserted
    then (
      record {
        paired = if has_sender s store then store.paired else store.paired ++ (s ∷ []);
        pending =
            if deleted
            then select (λ p. not (same_sender s p.sender)) store.pending
            else store.pending;
      },
      true,
    )
    else (store, false)

unfoldable pub approve_user : Bool → Bool → Sender → PairingStore → PairingStore × Bool
unfolding approve_locked
approve_user inserted deleted s store = approve_locked inserted deleted s store

-- SELECT user_id FROM pending_pairings WHERE tenant=? AND channel=? AND code=?
unfoldable pub find_code : String → String → String → List Pending → Option Sender
find_code tenant channel code [] = none
find_code tenant channel code (p ∷ ps) =
    let rest = find_code tenant channel code ps in
    if p.sender.tenant == tenant
    then (if p.sender.channel == channel
        then (if p.code == code then some p.sender else rest)
        else rest)
    else rest

abbrev pub approve_found : Bool → Bool → Option Sender → PairingStore → PairingStore × Option String
approve_found inserted deleted none store = (store, none)
approve_found inserted deleted (some s) store =
    let (store', ok) = approve_locked inserted deleted s store in
    (store', if ok then some s.user_id else none)

-- ApproveCode: the approved user, or none where an error is returned.
unfoldable pub approve_code :
    Bool → Bool → String → String → String → PairingStore → PairingStore × Option String
unfolding find_code approve_locked
approve_code inserted deleted tenant channel code store =
    approve_found inserted deleted (find_code tenant channel (trim_space code) store.pending) store

unfoldable pub list_pending : String → PairingStore → List Pending
list_pending tenant store =
    sort_by (λ a b. ltb a.created_at b.created_at)
      (select (λ p. p.sender.tenant == tenant) store.pending)

-- `store` is none where the gate has no store.
pub record Gate : Type 0 where
  pub store : Option PairingStore
  pub default_policy : String
  pub policies : Dict String String
  pub allow_from : Dict String (List String)

unfoldable pub new_gate : Option PairingStore → String → Gate
new_gate store policy = record {
  store = store;
  default_policy = if policy == "" then "open" else policy;
  policies = [];
  allow_from = [];
}

unfoldable pub set_policy : String → String → List String → Gate → Gate
set_policy channel policy allow g = record g {
  policies = put channel policy g.policies;
  allow_from = put channel allow g.allow_from;
}

unfoldable pub policy_for : String → Gate → String
policy_for channel g = elim (get channel g.policies) [
  | none ↦ g.default_policy
  | some p ↦ (if p == "" then g.default_policy else p)
]

abbrev pub list_or_empty : Option (List String) → List String
list_or_empty none = []
list_or_empty (some l) = l

unfoldable pub allow_list : String → Gate → List String
allow_list channel g = list_or_empty (get channel g.allow_from)

unfoldable pub allowed : String → String → Gate → Bool
unfolding allow_list
allowed channel user g = any (λ u. u == "*" || u == user) (allow_list channel g)

-- The replies of Check.
pub data Reply : Type 0 where
  no_reply not_accepting not_on_allowlist pairing_unavailable : Reply
  your_code_is : String → Reply

abbrev pub is_empty : List String → Bool
is_empty [] = true
is_empty (_ ∷ _) = false

abbrev pub issue_reply : Gate → PairingStore × Option String → Gate × Bool × Reply
issue_reply g (store, none) = (record g { store = some store }, false, pairing_unavailable)
issue_reply g (store, some code) = (record g { store = some store }, false, your_code_is code)

abbrev pub check_pairing :
    Option String → ℕ → Bool → Bool → Sender → Option PairingStore → Gate → Gate × Bool × Reply
check_pairing drawn now read ok s none g = (g, true, no_reply)
check_pairing drawn now read ok s (some store) g =
    if allowed s.channel s.user_id g
    then (g, true, no_reply)
    else if is_paired read s store
    then (g, true, no_reply)
    else issue_reply g (issue_code drawn now ok s store)

-- Check, on the sender of an inbound message; `read` says whether the query of IsPaired works.
unfoldable pub check : Option String → ℕ → Bool → Bool → Sender → Gate → Gate × Bool × Reply
check drawn now read ok s g =
    let policy = policy_for s.channel g in
    if policy == "closed"
    then (g, false, not_accepting)
    else if policy == "open"
    then (if is_empty (allow_list s.channel g)
        then (g, true, no_reply)
        else if allowed s.channel s.user_id g
        then (g, true, no_reply)
        else (g, false, not_on_allowlist))
    else check_pairing drawn now read ok s g.store g

-- ===== src/Server/Watchlists.antt =====
-- The handlers of watchlists (pkg/server/handler_watchlist.go). Whether a statement of the database
-- succeeds, the id and the time of a new row, and the check of an unsubscribe token, which is an HMAC of
-- the tenant's id, are arguments.
use devtrace.Base.{
  String_eq, ◌||◌, none, length, [], nat_eq, ◌==◌, not, true, leb, false, ◌∷◌, some, if◌then◌else◌,
  ◌&&◌, ℕ, Option, String, List, Bool,
}
use devtrace.Bot.{codes}
use devtrace.Plan.Defs.{plan_or_free}
use devtrace.Tenant.Defs.{Tenant}
use devtrace.Server.Names.{is_alnum, is_name_char, is_name}
use devtrace.Watchlist.Defs.{Tables, manual}
use devtrace.Watchlist.Store.{
  create_watchlist, delete_watchlist, toggle_watchlist_email, disable_watchlist_emails,
  watchlist_manual_count,
}
use devtrace.Base.Time.{Time}

-- The rest of a target after a character, which was alphanumeric or not.
abbrev pub is_target_rest : Bool → List ℕ → Bool
is_target_rest last [] = last
is_target_rest last (c ∷ s) =
    let rest = is_target_rest (is_alnum c) s in
    if nat_eq c b'/' then last && is_name s else is_name_char c && rest

abbrev pub is_target_codes : List ℕ → Bool
is_target_codes [] = false
is_target_codes (c ∷ s) = is_alnum c && is_target_rest true s

-- `target == "" || !validTarget.MatchString(target) || len(target) > 100` is its negation.
unfoldable pub is_target : String → Bool
is_target target = is_target_codes (codes target) && leb (length (codes target)) 100

pub data Answer : Type 0 where
  -- To the sign-in, to the settings with a message, to the settings.
  to_sign_in : Answer
  to_settings : String → Answer
  -- An error with its status, and the page of an unsubscription.
  refuses : ℕ → Answer
  unsubscribed : Answer

abbrev pub stored : Bool → Tables → Tables → Answer × Tables
stored true after before = (to_settings "watchlist_added", after)
stored false after before = (to_settings "watchlist_add_error", before)

abbrev pub add_for : Tenant → String → String → Time → Bool → Bool → Tables → Answer × Tables
add_for tn target id now can_count can_store t =
    if not can_count
    then (to_settings "watchlist_limit_error", t)
    else (if leb (plan_or_free tn.plan).max_watchlists (watchlist_manual_count tn.id t)
        then (to_settings "watchlist_limit", t)
        else stored can_store (create_watchlist id now tn.id target manual t) t)

unfoldable pub add_watchlist_handler :
    Option Tenant → String → String → Time → Bool → Bool → Tables → Answer × Tables
add_watchlist_handler none target id now can_count can_store t = (to_sign_in, t)
add_watchlist_handler (some tn) target id now can_count can_store t =
    if not (is_target target)
    then (to_settings "invalid_target", t)
    else add_for tn target id now can_count can_store t

abbrev pub deleted : Tables × Bool → Answer × Tables
deleted r = (to_settings (if r.1 then "watchlist_removed" else "watchlist_delete_denied"), r.0)

unfoldable pub delete_watchlist_handler : Option Tenant → String → Bool → Tables → Answer × Tables
delete_watchlist_handler none id can_store t = (to_sign_in, t)
delete_watchlist_handler (some tn) id can_store t =
    if id == ""
    then (to_settings "invalid_request", t)
    else (if can_store
        then deleted (delete_watchlist id tn.id t)
        else (to_settings "watchlist_delete_denied", t))

unfoldable pub toggle_watchlist_email_handler :
    Option Tenant → String → Bool → Tables → Answer × Tables
toggle_watchlist_email_handler none id can_store t = (to_sign_in, t)
toggle_watchlist_email_handler (some tn) id can_store t =
    if id == ""
    then (to_settings "invalid_request", t)
    else (if can_store
        then (to_settings "", toggle_watchlist_email id tn.id t)
        else (to_settings "watchlist_update_error", t))

unfoldable pub digest_unsubscribe_handler :
    (String → String → String → Bool) → String → String → String → Bool → Tables → Answer × Tables
digest_unsubscribe_handler is_valid secret tenant_id token can_store t =
    if tenant_id == "" || token == "" || secret == ""
    then (refuses 400, t)
    else (if not (is_valid secret tenant_id token)
        then (refuses 403, t)
        else (if can_store
            then (unsubscribed, disable_watchlist_emails tenant_id t)
            else (refuses 500, t)))

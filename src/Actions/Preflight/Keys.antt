-- ===== src/Actions/Preflight/Keys.antt =====
-- `idempotencyKey` of src/actions/preflight.ts: the text that names an intent against a version
-- of a listing.
use sidestage_copilot.Prelude.{ℕ, String, str_append, [], ◌∷◌, if◌then◌else◌}
use sidestage_copilot.Domain.{
  ActionKind, push_listing, swap_pinned, markdown_price, adjust_stock, end_listing, create_clip,
  mark_highlight, run_poll, shoutout, pin_message, post_reply, send_dm, flag_for_human,
}
use sidestage_copilot.Js.{Value, Runtime}
use sidestage_copilot.Actions.Port.{Params}

abbrev kind_name : ActionKind → String
kind_name push_listing = "push_listing"
kind_name swap_pinned = "swap_pinned"
kind_name markdown_price = "markdown_price"
kind_name adjust_stock = "adjust_stock"
kind_name end_listing = "end_listing"
kind_name create_clip = "create_clip"
kind_name mark_highlight = "mark_highlight"
kind_name run_poll = "run_poll"
kind_name shoutout = "shoutout"
kind_name pin_message = "pin_message"
kind_name post_reply = "post_reply"
kind_name send_dm = "send_dm"
kind_name flag_for_human = "flag_for_human"

-- `Object.keys(params).sort()`, each key with its value
insert_param : Runtime → String × Value → Params → Params
insert_param rt kv [] = kv ∷ []
insert_param rt kv (x ∷ p) =
    if rt.sorts_before x.0 kv.0 then x ∷ insert_param rt kv p else kv ∷ x ∷ p

unfoldable pub sort_params : Runtime → Params → Params
unfolding insert_param
sort_params rt [] = []
sort_params rt (kv ∷ p) = insert_param rt kv (sort_params rt p)

abbrev entry : Runtime → String × Value → String
entry rt (k, v) = str_append k (str_append "=" (rt.string v))

join_entries : Runtime → Params → String
join_entries rt [] = ""
join_entries rt (kv ∷ []) = entry rt kv
join_entries rt (kv ∷ p) = str_append (entry rt kv) (str_append "&" (join_entries rt p))

unfoldable pub idempotency_key : Runtime → ActionKind → String → ℕ → Params → String
unfolding sort_params join_entries
idempotency_key rt kind listing_id version params = str_append (kind_name kind) (
    str_append ":" (
      str_append listing_id (
        str_append ":v" (
          str_append (rt.digits version)
            (str_append ":" (join_entries rt (sort_params rt params)))))))

-- ===== src/AdBlock/Requests/Tests.antt =====
-- The theorems on the two handlers at concrete requests and messages.
use atlantic_engine.Base.{
  ◌+◌, ◌*◌, ◌≤◌, ◌≡◌, ◌↔◌, ◌⊎◌, true, false, Option, none, some, if◌then◌else◌, Bytes, codes, streq,
}
use atlantic_engine.AdBlock.ResourceType.{Request}
use atlantic_engine.AdBlock.Waiting.{no_waits, engine_wait_us}
use atlantic_engine.AdBlock.Requests.{
  Globals, Sent, on_send_request, boolean, toggle_message, allowlist_message, on_user_message,
}
use atlantic_engine.AdBlock.Requests.Blocking.{Blocks}
use atlantic_engine.AdBlock.Requests.Blocking.Outcome.{
  on_send_request_returns, on_send_request-block_iff,
}
use atlantic_engine.AdBlock.Requests.Messages.{Effect, on_user_message-Effect}
use atlantic_engine.Samples.{sample_glib, sample_engine, sample_world, sample_world-WorldLaws}

abbrev blocking : Globals
blocking = record { enabled = true; allowlist = none; statics = no_waits }

-- The headers of a navigation.
navigation : Bytes → Option Bytes
navigation name = if streq name (codes "Sec-Fetch-Dest") then some (codes "document") else none

abbrev page_uri : Option Bytes
page_uri = some (codes "http://e.org/")

abbrev page : Request
page = record { headers = some navigation; uri = some (codes "http://f.org/"); http_method = none }

on_send_request_returns_example :
    (sent : Sent) × (on_send_request sample_glib sample_engine sample_world blocking page_uri
        (record page { headers = none })
        3
      ≡ some sent)
    × (3 ≤ sent.now)
    × (sent.now ≤ 3 + engine_wait_us + 2 * 1)
on_send_request_returns_example =
    on_send_request_returns sample_glib sample_engine sample_world 1 sample_world-WorldLaws blocking
      page_uri (record page { headers = none }) 3

on_send_request-block_example :
    (sent : Sent) × (on_send_request sample_glib sample_engine sample_world blocking page_uri page
        12
      ≡ some sent)
    × ((sent.block ≡ true)
        ↔ Blocks sample_glib sample_engine sample_world blocking page_uri page sent.now)
on_send_request-block_example =
    let returned =
      on_send_request_returns sample_glib sample_engine sample_world 1 sample_world-WorldLaws
        blocking page_uri page 12 in
    (
      returned.0,
      returned.1,
      on_send_request-block_iff sample_glib sample_engine sample_world 1 sample_world-WorldLaws
          blocking page_uri page 12 returned.0 returned.1,
    )

on_user_message-Effect_example :
    Effect sample_glib blocking
      (some toggle_message)
      (some (boolean false))
      (on_user_message sample_glib blocking (some toggle_message) (some (boolean false))).0
    × (((on_user_message sample_glib blocking (some toggle_message) (some (boolean false))).1
          ≡ true)
        ↔ ((some toggle_message ≡ some toggle_message)
            ⊎ (some toggle_message ≡ some allowlist_message)))
on_user_message-Effect_example =
    on_user_message-Effect sample_glib blocking (some toggle_message) (some (boolean false))

-- ===== src/Dashboard/Tests.antt =====
-- Runs of the model of src/dashboard.rs, and its theorems at concrete inputs.
use Prim.Native.String.{◌++◌ as ◌<>◌}
use snerd_rust.Base.Decimal.RoundTrip.{Chars}
use snerd_rust.Task.Cron.{is_whitespace}
use snerd_rust.Base.{
  decimal, insert, ℕ, ◌≤◌, ◌≡◌, refl, String, false, Option, none, some, List, [], ◌∷◌, arith, All,
  str_eq, if◌then◌else◌, length,
}
use snerd_rust.FileStore.{is_blank}
use snerd_rust.Task.Sample.{task}
use snerd_rust.Dashboard.{
  TaskValue, Printer, value_of, stats_text, count_values, has_job_error, read_files, stats_body,
  read_deduped_tasks,
}
use snerd_rust.Dashboard.Ring.{ring_cap, Received, message, lagged, closed, feed, progress_body}
use snerd_rust.Dashboard.Ring.Latest.{latest, events, feed-latest}
use snerd_rust.Dashboard.Server.{Site, site_of, handle_connection, respond}
use snerd_rust.Dashboard.Server.Request.{IsWord, IsDark, IsPlain, query_text, request_line}
use snerd_rust.Dashboard.Server.Serves.{body_after, handle_connection_serves}
use snerd_rust.Dashboard.Shown.{IsForeign}

abbrev printer : Printer
printer = record { text = λ t. t; number = decimal; rfc3339 = decimal }

-- Two lines are known.
parse : String → Option TaskValue
parse line =
    if str_eq line "a"
    then some (value_of printer (task "1" none))
    else if str_eq line "b"
    then some (value_of printer (record (task "1" none) { deleted_at = some 7 }))
    else none

b_not_blank : is_blank "b" ≡ false
unfolding is_blank
b_not_blank = refl

b_parses : parse "b" ≡ some (value_of printer (record (task "1" none) { deleted_at = some 7 }))
unfolding parse
b_parses = refl

b_id : (value_of printer (record (task "1" none) { deleted_at = some 7 })).task_id ≡ some "1"
unfolding value_of
b_id = refl

c-IsForeign : All (IsForeign parse "1") ("c" ∷ [])
unfolding parse
c-IsForeign = ((λ t e. absurd (cc)), tt)

abbrev files : List (Option (List String))
files = some ("a" ∷ "b" ∷ []) ∷ none ∷ []

abbrev inputs : List (Received ℕ)
inputs =
    message 3 (record { task_id = "1"; text = "half" })
    ∷ lagged
    ∷ message 4 (record { task_id = "1"; text = "done" })
    ∷ closed
    ∷ []

feed-latest_example :
    (feed inputs [] ≡ latest ring_cap (events inputs))
    × (progress_body (feed inputs []) ≡ latest 100 (events inputs))
    × (length (feed inputs []) ≤ ring_cap)
feed-latest_example = feed-latest inputs

abbrev site : Site
site = site_of {F64 = ℕ} parse (λ rows. none) (λ shown. none) 9 (some ("a" ∷ []) ∷ []) [] none

counted : site.stats ≡ "{\"enqueued\":1,\"processed\":0,\"failed\":0}"
unfolding site_of stats_text stats_body read_deduped_tasks read_files count_values parse value_of
    is_blank insert has_job_error decimal
counted = refl

path-IsPlain : IsWord "/api/stats" × Chars IsPlain "/api/stats"
unfolding is_whitespace
path-IsPlain = ground arith

method-IsWord : IsWord "GET"
unfolding is_whitespace
method-IsWord = ground arith

version-IsDark : Chars IsDark "HTTP/1.1"
unfolding is_whitespace
version-IsDark = ground arith

query-IsDark : Chars IsDark (query_text (some "t=3"))
unfolding is_whitespace
query-IsDark = ground arith

handle_connection_serves_example :
    (text : String) × (handle_connection site (
        some (
          request_line "GET" ("/api/stats" <> query_text (some "t=3")) "HTTP/1.1"
          <> ("\r\n" <> "Host: localhost\r\n\r\n")))
      ≡ some text)
    × (body_after 0 text ≡ some (respond site "GET" "/api/stats").body)
handle_connection_serves_example =
    handle_connection_serves site "GET" "/api/stats" "HTTP/1.1" "Host: localhost\r\n\r\n"
      (some "t=3") method-IsWord version-IsDark path-IsPlain.0 path-IsPlain.1 query-IsDark

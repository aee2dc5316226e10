-- ===== src/Dashboard/Server.antt =====
-- The HTTP server of src/dashboard.rs: `handle_connection`.
pub mod Request
pub mod Serves
use Prim.Native.Char.{Char, code}
use Prim.Native.String.{◌++◌ as ◌<>◌, len}
use snerd_rust.Base.{
  ℕ, String, Bool, true, false, ◌&&◌, Option, none, some, List, if◌then◌else◌, ◌==◌, str_eq, not,
  decimal,
}
use snerd_rust.Task.Cron.{is_whitespace, is_empty, trim_start}
use snerd_rust.Dashboard.{TaskValue, TaskRow, or_text, stats_body, stats_text, tasks_body}
use snerd_rust.Dashboard.Ring.{ProgressEvent, progress_body}

begins_with : ℕ → String → Bool
begins_with c String.[] = false
begins_with c (String.◌∷◌ d s) = code d == c

-- `lines().next()`: up to a line feed, or to a carriage return before one.
unfoldable pub first_line : String → String
unfolding begins_with
first_line String.[] = ""
first_line (String.◌∷◌ c s) =
    let rest = String.◌∷◌ c (first_line s) in
    if code c == 10 then "" else if code c == 13 && begins_with 10 s then "" else rest

-- The text before the first white space, and from there on.
unfoldable pub word : String → String
word String.[] = ""
word (String.◌∷◌ c s) = let rest = String.◌∷◌ c (word s) in if is_whitespace c then "" else rest

unfoldable pub after_word : String → String
after_word String.[] = ""
after_word (String.◌∷◌ c s) =
    let rest = after_word s in if is_whitespace c then String.◌∷◌ c s else rest

-- `next().unwrap_or(default)` on what is left of `split_whitespace`.
unfoldable pub next_word : String → String → String
unfolding word
next_word default text = let t = trim_start text in if is_empty t then default else word t

-- `split('?').next()`
unfoldable pub before_query : String → String
before_query String.[] = ""
before_query (String.◌∷◌ c s) =
    let rest = String.◌∷◌ c (before_query s) in if code c == b'?' then "" else rest

-- The method and the path of a request.
unfoldable pub parse_request : String → String × String
unfolding first_line next_word after_word before_query
parse_request req =
    let line = first_line req in
    (next_word "" line, before_query (next_word "/" (after_word (trim_start line))))

pub record Response : Type 0 where
  pub status : String
  pub content_type : String
  pub body : String

-- What the server answers from: the shown bodies, and `static/index.html`, if it can be read.
pub record Site : Type 0 where
  pub stats : String
  pub tasks : String
  pub progress : String
  pub index : Option String

unfoldable pub index_page : Option String → Response
index_page (some html) = record { status = "200 OK"; content_type = "text/html"; body = html }
index_page none = record {
  status = "404 Not Found";
  content_type = "text/plain";
  body = "Dashboard UI not found: place the dashboard bundle at ./static/index.html";
}

unfoldable pub json : String → Response
json body = record { status = "200 OK"; content_type = "application/json"; body = body }

unfoldable pub respond : Site → String → String → Response
unfolding index_page json
respond site method path =
    if not (str_eq method "GET")
    then record {
      status = "405 Method Not Allowed";
      content_type = "text/plain";
      body = "Method Not Allowed";
    }
    else if str_eq path "/api/stats"
    then json site.stats
    else if str_eq path "/api/tasks"
    then json site.tasks
    else if str_eq path "/api/progress"
    then json site.progress
    else if str_eq path "/"
    then index_page site.index
    else record { status = "404 Not Found"; content_type = "text/plain"; body = "Not Found" }

-- `body.len()` counts bytes.
unfoldable pub http_text : Response → String
http_text r =
    "HTTP/1.1 "
    <> (r.status
        <> ("\r\nContent-Type: "
            <> (r.content_type
                <> ("\r\nAccess-Control-Allow-Origin: *\r\nContent-Length: "
                    <> (decimal (len r.body) <> ("\r\nConnection: close\r\n\r\n" <> r.body))))))

-- `none` where nothing is read, or nothing written. `req` is what `from_utf8_lossy` makes of the bytes read.
unfoldable pub handle_connection : Site → Option String → Option String
unfolding parse_request respond http_text
handle_connection site none = none
handle_connection site (some req) =
    let (method, path) = parse_request req in some (http_text (respond site method path))

-- The bodies for one request: the logs of the shards as they are now, the clock, and the ring.
unfoldable pub site_of :
    {F64 : Type 0}
    → (String → Option TaskValue)
    → (List TaskRow → Option String)
    → (List (ProgressEvent F64) → Option String)
    → ℕ
    → List (Option (List String))
    → List (ProgressEvent F64)
    → Option String
    → Site
site_of parse print print_events now files ring index = record {
  stats = stats_text (stats_body parse files);
  tasks = tasks_body parse print now files;
  progress = or_text "[]" (print_events (progress_body ring));
  index = index;
}

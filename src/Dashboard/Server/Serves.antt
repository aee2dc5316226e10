-- ===== src/Dashboard/Server/Serves.antt =====
-- What a client of the server of src/dashboard.rs reads.
use Prim.Native.Char.{code}
use Prim.Native.String.{◌++◌ as ◌<>◌, len}
use Prim.Native.String.append
use text.Mathlib.TextLemmas.{append_assoc}
use snerd_rust.Base.{
  ℕ, ◌≡◌, refl, ap, ◌∙◌, inl, inr, String, Option, none, some, arith, if◌then◌else◌, ◌==◌, str_eq,
  decimal, Bool-cases,
}
use snerd_rust.Base.Decimal.RoundTrip.{Chars, IsDigit, decimal-Chars}
use snerd_rust.Dashboard.Server.{
  Site, Response, respond, index_page, json, http_text, handle_connection,
}
use snerd_rust.Dashboard.Server.Request.{
  IsWord, IsDark, IsPlain, query_text, request_line, parse_request-line,
}

-- How much of the blank line, `\r\n\r\n`, has been read after the character `c`.
next_state : ℕ → ℕ → ℕ
next_state k c =
    if c == 13
    then (if k == 2 then 3 else 1)
    else if c == 10
    then (if k == 1 then 2 else if k == 3 then 4 else 0)
    else 0

-- How a client finds the body: what stands after the first blank line.
unfoldable pub body_after : ℕ → String → Option String
unfolding next_state
body_after k String.[] = none
body_after k (String.◌∷◌ c s) =
    let rest = body_after (next_state k (code c)) s in
    if next_state k (code c) == 4 then some s else rest

-- The state after a text that does not complete a blank line.
walk : ℕ → String → Option ℕ
unfolding next_state
walk k String.[] = some k
walk k (String.◌∷◌ c s) =
    let rest = walk (next_state k (code c)) s in if next_state k (code c) == 4 then none else rest

body_after-walk :
    (k j : ℕ) (s t : String) → walk k s ≡ some j → body_after k (s <> t) ≡ body_after j t
unfolding walk body_after
body_after-walk k j String.[] t h = ground (arith, append.nil t)
body_after-walk k j (String.◌∷◌ c s) t h =
    ground (arith, append.cons c s t, body_after-walk (next_state k (code c)) j s t)

walk-digits : (s : String) → Chars IsDigit s → walk 0 s ≡ some 0
unfolding walk
walk-digits String.[] h = refl
walk-digits (String.◌∷◌ c s) (h, hs) = ground (arith, walk-digits s hs)

-- Nothing in the head of the response looks like the end of a line.
record IsFlat (r : Response) : Type 0 where
  status : walk 0 r.status ≡ some 0
  content_type : walk 0 r.content_type ≡ some 0

index_page-IsFlat : (index : Option String) → IsFlat (index_page index)
unfolding index_page walk
index_page-IsFlat none = record { status = refl; content_type = refl }
index_page-IsFlat (some html) = record { status = refl; content_type = refl }

respond-IsFlat : (site : Site) (method path : String) → IsFlat (respond site method path)
unfolding respond json walk
respond-IsFlat site method path = elim (Bool-cases (str_eq method "GET")) [
  | inr other ↦ rw other (record { status = refl; content_type = refl })
  | inl get ↦ rw get (elim (Bool-cases (str_eq path "/api/stats")) [
    | inl stats ↦ rw stats (record { status = refl; content_type = refl })
    | inr no_stats ↦ rw no_stats (elim (Bool-cases (str_eq path "/api/tasks")) [
      | inl tasks ↦ rw tasks (record { status = refl; content_type = refl })
      | inr no_tasks ↦ rw no_tasks (elim (Bool-cases (str_eq path "/api/progress")) [
        | inl progress ↦ rw progress (record { status = refl; content_type = refl })
        | inr no_progress ↦ rw no_progress (elim (Bool-cases (str_eq path "/")) [
          | inl root ↦ rw root (index_page-IsFlat site.index)
          | inr unknown ↦ rw unknown (record { status = refl; content_type = refl })
        ])
      ])
    ])
  ])
]

-- The body is framed: it is what stands after the first blank line.
body_after-http_text : (r : Response) → IsFlat r → body_after 0 (http_text r) ≡ some r.body
unfolding http_text
body_after-http_text r flat =
    body_after-walk 0 0 "HTTP/1.1 " _ (unfold walk in refl)
    ∙ body_after-walk 0 0 r.status _ flat.status
    ∙ body_after-walk 0 0 "\r\nContent-Type: " _ (unfold walk in refl)
    ∙ body_after-walk 0 0 r.content_type _ flat.content_type
    ∙ body_after-walk 0 0 "\r\nAccess-Control-Allow-Origin: *\r\nContent-Length: " _
        (unfold walk in refl)
    ∙ body_after-walk 0 0 (decimal (len r.body)) _
        (walk-digits (decimal (len r.body)) (decimal-Chars (len r.body)))
    ∙ ap (body_after 0) (append_assoc "\r\nConnection: close\r\n\r" "\n" r.body)
    ∙ body_after-walk 0 3 "\r\nConnection: close\r\n\r" _ (unfold walk in refl)
    ∙ ap (body_after 3) (append.cons "\n" "" r.body ∙ ap (String.◌∷◌ "\n") (append.nil r.body))
    ∙ (unfold body_after in refl)

-- A request whose first line is a method, a path, perhaps with a query, and a version, each without white
-- space, is always answered, and what the client reads after the blank line of the answer is exactly
-- the body that `respond` has for that method and that path.
pub handle_connection_serves :
    (site : Site) (method path version rest : String) (query : Option String)
    → IsWord method
    → Chars IsDark version
    → IsWord path
    → Chars IsPlain path
    → Chars IsDark (query_text query)
    → (text : String) × (handle_connection site
          (some (request_line method (path <> query_text query) version <> ("\r\n" <> rest)))
        ≡ some text)
      × (body_after 0 text ≡ some (respond site method path).body)
unfolding handle_connection
handle_connection_serves site method path version rest query is_method is_version word plain
      is_query =
    (
      http_text (respond site method path),
      ap (λ r. some (http_text (respond site r.0 r.1)))
          (parse_request-line method path version rest query is_method is_version (word, plain)
            is_query),
      body_after-http_text (respond site method path) (respond-IsFlat site method path),
    )

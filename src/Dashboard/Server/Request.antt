-- ===== src/Dashboard/Server/Request.antt =====
-- Which request line the server of src/dashboard.rs reads from a request.
use Prim.Native.Char.{Char, code}
use Prim.Native.String.{◌++◌ as ◌<>◌}
use Prim.Native.String.append
use text.Mathlib.TextLemmas.{append-nil}
use mathlib.Core.Path.{ap₂}
use snerd_rust.Base.{◌≡◌, ◌≢◌, refl, ap, sym, ◌∙◌, String, false, Option, none, some, arith}
use snerd_rust.Base.Decimal.RoundTrip.{Chars, Chars-append}
use snerd_rust.Task.Cron.{is_whitespace, is_empty, trim_start}
use snerd_rust.Dashboard.Server.{
  first_line, word, after_word, next_word, before_query, parse_request,
}

-- No white space.
abbrev pub IsDark : Char → Type 0
IsDark c = is_whitespace c ≡ false

-- No white space and no question mark.
abbrev pub IsPlain : Char → Type 0
IsPlain c = (is_whitespace c ≡ false) × (code c ≢ b'?')

abbrev IsInline : Char → Type 0
IsInline c = (code c ≢ 10) × (code c ≢ 13)

spaced_lem : (s : String) → " " <> s ≡ String.◌∷◌ " " s
spaced_lem s = append.cons " " "" s ∙ ap (String.◌∷◌ " ") (append.nil s)

dark-IsInline : (s : String) → Chars IsDark s → Chars IsInline s
unfolding is_whitespace
dark-IsInline String.[] h = tt
dark-IsInline (String.◌∷◌ c s) (h, hs) = ((ground arith, ground arith), dark-IsInline s hs)

first_line-append : (u t : String) → Chars IsInline u → first_line (u <> t) ≡ u <> first_line t
unfolding first_line
first_line-append String.[] t h = ap first_line (append.nil t) ∙ sym (append.nil (first_line t))
first_line-append (String.◌∷◌ c u) t ((lf, cr), hs) =
    ground (arith, append.cons c u t, append.cons c u (first_line t), first_line-append u t hs)

first_line-break : (rest : String) → first_line ("\r\n" <> rest) ≡ ""
unfolding first_line
first_line-break rest =
    ap first_line (append.cons "\r" "\n" rest ∙ ap (String.◌∷◌ "\r") (append.cons "\n" "" rest))
    ∙ refl

word-append : (u t : String) → Chars IsDark u → word (u <> (" " <> t)) ≡ u
unfolding word is_whitespace
word-append String.[] t h = ap word (append.nil (" " <> t) ∙ spaced_lem t) ∙ refl
word-append (String.◌∷◌ c u) t (h, hs) =
    ground (arith, append.cons c u (" " <> t), word-append u t hs)

after_word-append :
    (u t : String) → Chars IsDark u → after_word (u <> (" " <> t)) ≡ String.◌∷◌ " " t
unfolding after_word is_whitespace
after_word-append String.[] t h = ap after_word (append.nil (" " <> t) ∙ spaced_lem t) ∙ refl
after_word-append (String.◌∷◌ c u) t (h, hs) =
    ground (arith, append.cons c u (" " <> t), after_word-append u t hs)

-- A text that starts with a character that is no white space.
abbrev pub IsWord : String → Type 0
IsWord String.[] = ⊥
IsWord (String.◌∷◌ c s) = IsDark c × Chars IsDark s

IsWord-Chars : (s : String) → IsWord s → Chars IsDark s
IsWord-Chars String.[] h = absurd h
IsWord-Chars (String.◌∷◌ c s) h = h

trim_start-word : (s t : String) → IsWord s → trim_start (s <> t) ≡ s <> t
unfolding trim_start
trim_start-word String.[] t h = absurd h
trim_start-word (String.◌∷◌ c s) t (h, hs) = rw (append.cons c s t, h) refl

word-ne_empty : (s t : String) → IsWord s → is_empty (s <> t) ≡ false
unfolding is_empty
word-ne_empty String.[] t h = absurd h
word-ne_empty (String.◌∷◌ c s) t h = ap is_empty (append.cons c s t) ∙ refl

next_word-append : (default s t : String) → IsWord s → next_word default (s <> (" " <> t)) ≡ s
unfolding next_word
next_word-append default s t h =
    rw (trim_start-word s (" " <> t) h, word-ne_empty s (" " <> t) h)
      (word-append s t (IsWord-Chars s h))

IsWord-append : (s t : String) → IsWord s → Chars IsDark t → IsWord (s <> t)
IsWord-append String.[] t h k = absurd h
IsWord-append (String.◌∷◌ c s) t (h, hs) k =
    rw (append.cons c s t) (h, Chars-append IsDark s t hs k)

-- The rest of the target after the path.
abbrev pub query_text : Option String → String
query_text none = ""
query_text (some query) = "?" <> query

before_query-append :
    (path : String) (query : Option String)
    → Chars IsPlain path
    → before_query (path <> query_text query) ≡ path
unfolding before_query
before_query-append String.[] none h = ap before_query (append.nil "") ∙ refl
before_query-append String.[] (some q) h =
    ap before_query
      (append.nil ("?" <> q) ∙ append.cons "?" "" q ∙ ap (String.◌∷◌ "?") (append.nil q))
    ∙ refl
before_query-append (String.◌∷◌ c path) query ((dark, mark), hs) =
    ground (arith, append.cons c path (query_text query), before_query-append path query hs)

-- The first line of a request, and a request.
abbrev pub request_line : String → String → String → String
request_line method target version = method <> (" " <> (target <> (" " <> version)))

module _ (method path version rest : String) (query : Option String) (is_method : IsWord method)
    (is_version : Chars IsDark version) (is_path : IsWord path × Chars IsPlain path)
    (is_query : Chars IsDark (query_text query)) where
  abbrev target : String
  target = path <> query_text query

  target-IsWord : IsWord target
  target-IsWord = IsWord-append path (query_text query) is_path.0 is_query

  line-IsInline : Chars IsInline (request_line method target version)
  unfolding is_whitespace
  line-IsInline =
      let inline = λ (s : String) (w : IsWord s). dark-IsInline s (IsWord-Chars s w) in
      let space : Chars IsInline " " = omega arith in
      Chars-append IsInline method (" " <> (target <> (" " <> version))) (inline method is_method) (
        Chars-append IsInline " " (target <> (" " <> version)) space (
          Chars-append IsInline target (" " <> version) (inline target target-IsWord)
            (Chars-append IsInline " " version space (dark-IsInline version is_version))))

  first_line-request :
      first_line (request_line method target version <> ("\r\n" <> rest))
      ≡ request_line method target version
  first_line-request =
      first_line-append (request_line method target version) ("\r\n" <> rest) line-IsInline
      ∙ ap (λ v. request_line method target version <> v) (first_line-break rest)
      ∙ append-nil (request_line method target version)

  second_word :
      next_word "/" (after_word (trim_start (request_line method target version))) ≡ target
  unfolding next_word trim_start is_whitespace
  second_word =
      ap (λ v. next_word "/" (after_word v))
        (trim_start-word method (" " <> (target <> (" " <> version))) is_method)
      ∙ ap (next_word "/")
          (after_word-append method (target <> (" " <> version)) (IsWord-Chars method is_method))
      ∙ next_word-append "/" target version target-IsWord

  pub parse_request-line :
      parse_request (request_line method target version <> ("\r\n" <> rest)) ≡ (method, path)
  unfolding parse_request
  parse_request-line =
      let line = first_line-request in
      let same = next_word-append "" method (target <> (" " <> version)) is_method in
      ap (λ l. (next_word "" l, before_query (next_word "/" (after_word (trim_start l))))) line
      ∙ ap₂ (λ m t. (m, before_query t)) same second_word
      ∙ ap (λ v. (method, v)) (before_query-append path query is_path.1)

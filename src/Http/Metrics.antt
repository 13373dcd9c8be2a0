-- ===== src/Http/Metrics.antt =====
-- The metrics text of crates/sts-http/src/lib.rs, in the Prometheus format. A `BTreeMap` yields its entries by
-- the order of their keys, into which the counters are brought here.
mod Tests
use Prim.Native.Char.{Char, code}
use Prim.Native.String.{[] as no_text, ◌∷◌ as push_char}
use sts_delegate_rs.Prelude.{
  ℕ, String, Bool, true, false, List, [], ◌∷◌, ◌&&◌, ◌||◌, ◌==◌, if◌then◌else◌, text_ltb, text_eq,
  ◌⧺◌,
}
use sts_delegate_rs.Prelude.Text.Decimal.{show_usize}
use sts_delegate_rs.Http.Service.{MetricsState}

-- Backslashes, quotes and line feeds: replacing them one after the other, backslashes first, is replacing
-- each character by itself or its escape.
abbrev escape_char : ℕ → Char → String
escape_char n c =
    if n == 92
    then "\\\\"
    else if n == 34
    then "\\\""
    else if n == 10
    then "\\n"
    else push_char c no_text

unfoldable pub escape_prometheus_label : String → String
escape_prometheus_label no_text = no_text
escape_prometheus_label (push_char c s) = escape_char (code c) c ⧺ escape_prometheus_label s

-- Insertion by an order of the keys.
insert_by : {K : Type 0} → (K → K → Bool) → K × ℕ → List (K × ℕ) → List (K × ℕ)
insert_by less entry [] = entry ∷ []
insert_by less entry (other ∷ rest) =
    let later = insert_by less entry rest in
    if less entry.0 other.0 then entry ∷ other ∷ rest else other ∷ later

unfoldable pub by_key : {K : Type 0} → (K → K → Bool) → List (K × ℕ) → List (K × ℕ)
unfolding insert_by
by_key less [] = []
by_key less (entry ∷ rest) = insert_by less entry (by_key less rest)

-- Algorithms by their text, and then `false` before `true`.
abbrev pub alg_ltb : String × Bool → String × Bool → Bool
alg_ltb (a, true) (b, false) = text_ltb a b
alg_ltb (a, false) (b, true) = text_ltb a b || text_eq a b
alg_ltb (a, _) (b, _) = text_ltb a b

abbrev show_bool : Bool → String
show_bool true = "true"
show_bool false = "false"

-- A poisoned lock shows no counters.
abbrev unless_poisoned : {K : Type 0} → Bool → List (K × ℕ) → List (K × ℕ)
unless_poisoned true counters = []
unless_poisoned false counters = counters

unfoldable pub render_denials : List (String × ℕ) → String
render_denials [] = ""
render_denials ((error, count) ∷ rest) =
    "sts_denials_total{error=\""
    ⧺ escape_prometheus_label error
    ⧺ "\"} "
    ⧺ show_usize count
    ⧺ "\n"
    ⧺ render_denials rest

unfoldable pub render_signing_algs : List ((String × Bool) × ℕ) → String
render_signing_algs [] = ""
render_signing_algs (((alg, pqc_fallback), count) ∷ rest) =
    "sts_token_signing_alg_total{alg=\""
    ⧺ escape_prometheus_label alg
    ⧺ "\",pqc_fallback=\""
    ⧺ show_bool pqc_fallback
    ⧺ "\"} "
    ⧺ show_usize count
    ⧺ "\n"
    ⧺ render_signing_algs rest

unfoldable pub render : MetricsState → ℕ → String
render m replay_cache_size =
    "# HELP sts_exchanges_total Total token exchange outcomes (minted = success, denied = any OAuth error)\n"
    ⧺ "# TYPE sts_exchanges_total counter\n"
    ⧺ "sts_exchanges_total{result=\"minted\"} "
    ⧺ show_usize m.exchanges_minted
    ⧺ "\n"
    ⧺ "sts_exchanges_total{result=\"denied\"} "
    ⧺ show_usize m.exchanges_denied
    ⧺ "\n"
    ⧺ "# HELP sts_denials_total Token exchange denials labelled by OAuth error code\n"
    ⧺ "# TYPE sts_denials_total counter\n"
    ⧺ render_denials (by_key text_ltb (unless_poisoned m.denials_poisoned m.denials))
    ⧺ "# HELP sts_token_signing_alg_total Minted token signing algorithms selected by STS policy\n"
    ⧺ "# TYPE sts_token_signing_alg_total counter\n"
    ⧺ render_signing_algs
        (by_key alg_ltb (unless_poisoned m.signing.poisoned m.signing.signing_algs))
    ⧺ "# HELP sts_replay_cache_size Unexpired jtis currently held in the active replay cache\n"
    ⧺ "# TYPE sts_replay_cache_size gauge\n"
    ⧺ "sts_replay_cache_size "
    ⧺ show_usize replay_cache_size
    ⧺ "\n"

-- ===== src/Config.antt =====
-- proto/src/config.rs: what the constructors of an endpoint are given. Parsing is that of the crates
-- toml and hex.
use Prim.Native.String.{String}
use quietquic.Outcome.{SocketAddr}
use text.Mathlib.Text.{◌==◌}
use text.Mathlib.TextEquality.{eq_iff}
use mathlib.Core.Bool.{true≢false}
use quietquic.Prelude.{ℕ, Option, List, ◌≡◌, refl, sym, ◌∙◌, Bool, true, false}

-- A Psk is its bytes.
pub record ClientEntry : Type 0 where
  pub client_id : String
  pub psk : List ℕ

pub record ServerSecrets (K : Type 0) : Type 0 where
  pub listen : SocketAddr K
  pub clients : List ClientEntry

pub record ClientConfigFile (K : Type 0) : Type 0 where
  pub client_id : String
  pub psk : List ℕ
  pub server : SocketAddr K
  pub bind : Option (SocketAddr K)

-- What the text of `Invalid` says.
pub data Reason : Type 0 where
  empty_client_id : Reason
  duplicate_client_id duplicate_psk : String → Reason

pub data ConfigError : Type 0 where
  io parse : String → ConfigError
  invalid : Reason → ConfigError

unfoldable by_test : (s t : String) (same : Bool) → (s == t) ≡ same → Dec (s ≡ t)
by_test s t true e = yes ((eq_iff s t).0 e)
by_test s t false e = no (λ h. absurd (true≢false (sym ((eq_iff s t).1 h) ∙ e)))

unfoldable pub String_discrete : Discrete String
unfolding by_test
String_discrete s t = by_test s t (s == t) refl

-- ===== src/Access/Examples.antt =====
-- Concrete tokens and greetings for crates/k10s-server/src/auth.rs.
use k10s.Base.{List, [], ◌∷◌, ℕ}
use k10s.Access.Tokens.{const_time_eq, Decides, const_time_eq-Decides}
use k10s.Access.Hello.{ServerConfig, Hello, Authenticates, authenticate, authenticate-Authenticates}

abbrev token : List ℕ
token = 115 ∷ 51 ∷ []

abbrev config : ServerConfig
config = record { access_token = token; capabilities = "logs" ∷ "pod.portForward" ∷ [] }

abbrev greeting : Hello
greeting = record {
  access_token = token;
  protocol_major = 1;
  protocol_minor = 3;
  capabilities = "logs" ∷ "pod.portForward" ∷ "exec" ∷ [];
}

const_time_eq-Decides_example : Decides token (115 ∷ []) (const_time_eq token (115 ∷ []))
const_time_eq-Decides_example = const_time_eq-Decides token (115 ∷ [])

authenticate-Authenticates_example : Authenticates config greeting (authenticate config greeting)
authenticate-Authenticates_example = authenticate-Authenticates config greeting

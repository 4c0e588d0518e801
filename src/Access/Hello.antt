-- ===== src/Access/Hello.antt =====
-- `authenticate` of crates/k10s-server/src/auth.rs: the token, the protocol version and the capabilities of
-- a `Hello`.
use k10s.Base.{
  ℕ, ◌≤◌, ◌≡◌, ◌≢◌, inl, inr, refl, String, Bool, true, not, ◌&&◌, ◌||◌, List, [], ◌∷◌, arith, min,
  any, retain, leb, ◌==◌, if◌then◌else◌, if_some, if_cases, Reply, ok, err, panic, string_eq,
}
use text.Mathlib.TextEquality.{eq_iff}
use k10s.Access.Tokens.{const_time_eq, const_time_eq-Decides}

abbrev pub protocol_major : ℕ
protocol_major = 1

abbrev pub protocol_minor : ℕ
protocol_minor = 6

abbrev pub generalized_port_forward_minor : ℕ
generalized_port_forward_minor = 6

abbrev pub capability_pod_port_forward : String
capability_pod_port_forward = "pod.portForward"

pub record ServerConfig : Type 0 where
  pub access_token : List ℕ
  pub capabilities : List String

pub record Hello : Type 0 where
  pub access_token : List ℕ
  pub protocol_major : ℕ
  pub protocol_minor : ℕ
  pub capabilities : List String

pub record Negotiated : Type 0 where
  pub major : ℕ
  pub minor : ℕ
  pub capabilities : List String

pub data AuthenticationError : Type 0 where
  unauthorized : AuthenticationError
  incompatible_protocol : ℕ → AuthenticationError

unfoldable pub contains : List String → String → Bool
contains names name = any (λ x. string_eq.beq x name) names

-- The two filters of `authenticate`.
unfoldable pub granted : ServerConfig → ℕ → String → Bool
granted config minor item =
    contains config.capabilities item
    && (not (string_eq.beq item capability_pod_port_forward)
        || leb generalized_port_forward_minor minor)

unfoldable pub negotiate : ServerConfig → Hello → Reply AuthenticationError Negotiated
negotiate config hello =
    if not (hello.protocol_major == protocol_major)
    then err (incompatible_protocol hello.protocol_major)
    else let minor = min hello.protocol_minor protocol_minor in
      ok (record {
        major = protocol_major;
        minor = minor;
        capabilities = retain (granted config minor) hello.capabilities;
      })

unfoldable pub authenticate : ServerConfig → Hello → Reply AuthenticationError Negotiated
authenticate config hello =
    if_some (const_time_eq hello.access_token config.access_token)
      (λ same. if not same then err unauthorized else negotiate config hello) panic

-- What a negotiation grants.
pub record IsNegotiated (config : ServerConfig) (hello : Hello) (n : Negotiated) : Type 0 where
  pub major : n.major ≡ protocol_major
  pub within_client : n.minor ≤ hello.protocol_minor
  pub within_server : n.minor ≤ protocol_minor
  pub asked_and_offered :
      (name : String)
      → contains n.capabilities name ≡ true
      → (contains hello.capabilities name ≡ true) × (contains config.capabilities name ≡ true)
  pub generalized :
      contains n.capabilities capability_pod_port_forward ≡ true
      → generalized_port_forward_minor ≤ n.minor

contains-retain :
    (p : String → Bool) (names : List String) (name : String)
    → contains (retain p names) name ≡ true
    → (contains names name ≡ true) × (p name ≡ true)
unfolding contains
contains-retain p [] name h = cc
contains-retain p (x ∷ names) name h = ground (arith, contains-retain p names name, eq_iff x name)

module _ (config : ServerConfig) (hello : Hello) where
  abbrev pub Authenticates : Reply AuthenticationError Negotiated → Type 0
  Authenticates (ok n) =
      (hello.access_token ≡ config.access_token)
      × (hello.protocol_major ≡ protocol_major)
      × IsNegotiated config hello n
  Authenticates (err unauthorized) = hello.access_token ≢ config.access_token
  Authenticates (err (incompatible_protocol major)) =
      (hello.access_token ≡ config.access_token)
      × (hello.protocol_major ≡ major)
      × (major ≢ protocol_major)
  Authenticates panic = ⊥

  negotiate-Authenticates :
      hello.access_token ≡ config.access_token → Authenticates (negotiate config hello)
  unfolding negotiate granted
  negotiate-Authenticates e =
      let minor = min hello.protocol_minor protocol_minor in
      if_cases Authenticates (not (hello.protocol_major == protocol_major))
        (λ c. (e, refl, ground arith))
        (λ c. (
          e,
          ground arith,
          record {
            major = refl;
            within_client = omega arith;
            within_server = omega arith;
            asked_and_offered = λ name h.
                let (asked, g) = contains-retain (granted config minor) hello.capabilities name h in
                (asked, ground arith);
            generalized = λ h.
                let (asked, g) =
                  contains-retain (granted config minor) hello.capabilities
                    capability_pod_port_forward h in
                ground (arith, eq_iff capability_pod_port_forward capability_pod_port_forward);
          },
        ))

  -- A session is authenticated exactly with the configured token and the protocol major; it gets a
  -- minor that both sides know, and only capabilities that the client asked for and the server
  -- offers, the generalized port forward among them only from its minor on.
  pub authenticate-Authenticates : Authenticates (authenticate config hello)
  unfolding authenticate
  authenticate-Authenticates = elim (const_time_eq-Decides hello.access_token config.access_token) [
    | inl (e, same) ↦ rw e (negotiate-Authenticates same)
    | inr (e, other) ↦ rw e other
  ]

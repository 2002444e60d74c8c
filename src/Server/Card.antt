-- ===== src/Server/Card.antt =====
-- internal/server/agent_card.go, and internal/auth/auth.go: `ConfigureAgentCard`.
pub mod Checked
pub mod Published
use a2a_red_panda_server_con.Prelude.{
  ok, ◌>>◌, ◌>>=◌, Text, text_eq, str, ℕ, suc, Bool, ◌&&◌, ◌||◌, not, Option, none, some, List, [],
  ◌∷◌, ◌++◌, ◌==◌, if◌then◌else◌, err, length, Result, refuse_if, or_fail,
}
use a2a_red_panda_server_con.Auth.Scope.{Authenticator}
use a2a_red_panda_server_con.Strings.{trim_right}

-- The SDK's card, as far as it is read or written. `Rest` is what else it has, and what extensions,
-- signatures and security requirements of the file are is left open: only their number is read.
pub record Skill : Type 0 where
  pub id : Text
  pub name : Text
  pub description : Text
  pub tags : List Text
  pub security_requirements : List Text

pub record AgentInterface : Type 0 where
  pub url : Text
  pub protocol_binding : Text
  pub protocol_version : Text

pub record Capabilities : Type 0 where
  pub streaming : Bool
  pub push_notifications : Bool
  pub extended_agent_card : Bool
  pub extensions : List Text

-- A security scheme of OpenID Connect, by its name.
pub record SecurityScheme : Type 0 where
  pub name : Text
  pub description : Text
  pub open_id_connect_url : Text

-- A nil interface is `none`; a requirement names a scheme and scopes.
pub record AgentCard (Rest : Type 0) : Type 0 where
  pub name : Text
  pub description : Text
  pub version : Text
  pub skills : List Skill
  pub default_input_modes : List Text
  pub default_output_modes : List Text
  pub capabilities : Capabilities
  pub security_schemes : List SecurityScheme
  pub security_requirements : List (Text × List Text)
  pub signatures : List Text
  pub supported_interfaces : List (Option AgentInterface)
  pub rest : Rest

pub data CardError : Type 0 where
  unreadable undecodable incomplete no_modes no_streaming : CardError
  other_capabilities card_security card_signatures null_interface : CardError
  incomplete_skill skill_security : (index : ℕ) → CardError
  other_transport : Text → CardError

abbrev is_nil : {A : Type 0} → List A → Bool
is_nil l = length l == 0

-- The loop over the skills, from an index.
unfoldable pub check_skills : ℕ → List Skill → Result CardError (Unit {0})
check_skills n [] = ok tt
check_skills n (skill ∷ skills) = do
  refuse_if
      (text_eq skill.id []
        || text_eq skill.name []
        || text_eq skill.description []
        || is_nil skill.tags)
      (incomplete_skill n)
  refuse_if (not (is_nil skill.security_requirements)) (skill_security n)
  check_skills (suc n) skills

unfoldable pub check_card : {Rest : Type 0} → AgentCard Rest → Result CardError (Unit {0})
check_card card = do
  refuse_if
      (text_eq card.name []
        || text_eq card.description []
        || text_eq card.version []
        || is_nil card.skills)
      incomplete
  refuse_if (is_nil card.default_input_modes || is_nil card.default_output_modes) no_modes
  check_skills 0 card.skills
  refuse_if (not card.capabilities.streaming) no_streaming
  refuse_if
      (card.capabilities.push_notifications
        || card.capabilities.extended_agent_card
        || not (is_nil card.capabilities.extensions))
      other_capabilities
  refuse_if (not (is_nil card.security_schemes) || not (is_nil card.security_requirements))
      card_security
  refuse_if (not (is_nil card.signatures)) card_signatures

-- `http_json` and `version` are the SDK's `TransportProtocolHTTPJSON` and `Version`.
module _ (http_json version : Text) where
  -- The loop over the interfaces, which writes into each of them.
  unfoldable pub project_interfaces :
      (url : Text) → List (Option AgentInterface) → Result CardError (List (Option AgentInterface))
  project_interfaces url [] = ok []
  project_interfaces url (none ∷ interfaces) = err null_interface
  project_interfaces url (some i ∷ interfaces) = do
    refuse_if (not (text_eq i.protocol_binding http_json)) (other_transport i.protocol_binding)
    projected ← project_interfaces url interfaces
    ok (
        some
          (record { url = url; protocol_binding = i.protocol_binding; protocol_version = version })
        ∷ projected)

  -- The interfaces of the card, or the one that stands for none; `a2a.NewAgentInterface` has the
  -- given URL and binding, and its version is written afterwards.
  unfoldable pub interfaces_of :
      (url : Text) → List (Option AgentInterface) → List (Option AgentInterface)
  interfaces_of url [] =
      some (record { url = url; protocol_binding = http_json; protocol_version = version }) ∷ []
  interfaces_of url (i ∷ interfaces) = i ∷ interfaces

  module _ {Rest : Type 0} where
    -- `read_file` is `os.ReadFile` and `decode` is `json.Unmarshal` into a card.
    unfoldable pub load_agent_card :
        (read_file : Text → Option Text) (decode : Text → Option (AgentCard Rest))
        (path public_base_url : Text)
        → Result CardError (AgentCard Rest)
    load_agent_card read_file decode path public_base_url =
        let url = trim_right (str "/") public_base_url in
        do
          contents ← or_fail (read_file path) unreadable
          card ← or_fail (decode contents) undecodable
          check_card card
          interfaces ← project_interfaces url (interfaces_of url card.supported_interfaces)
          ok (record card { supported_interfaces = interfaces })

-- `strings.TrimSuffix(s, "/")`
unfoldable pub trim_slash : Text → Text
trim_slash [] = []
trim_slash (c ∷ s) = let rest = trim_slash s in if c == b'/' && text_eq s [] then [] else c ∷ rest

abbrev pub scheme_name : Text
scheme_name = str "oidc"

unfoldable pub configure_agent_card :
    {Rest : Type 0} → Authenticator → AgentCard Rest → AgentCard Rest
configure_agent_card a card = record card {
  security_schemes =
      record {
        name = scheme_name;
        description = str "OIDC bearer token issued for the Bridge A2A audience";
        open_id_connect_url = trim_slash a.issuer ++ str "/.well-known/openid-configuration";
      }
      ∷ [];
  security_requirements = (scheme_name, a.required_scopes) ∷ [];
}

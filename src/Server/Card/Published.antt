-- ===== src/Server/Card/Published.antt =====
-- What a card that was loaded promises.
use a2a_red_panda_server_con.Prelude.{
  Text, text_eq, text_eq_iff, suc, ◌≡◌, refl, ap, ◌≢◌, true, false, not, Option, none, some, List,
  [], ◌∷◌, not-false, ok, length, All, refuse_if, >>=-eq-ok, refuse_if-eq-ok, ok-injective, str,
  subst, or_fail,
}
use a2a_red_panda_server_con.Server.Card.{
  AgentInterface, AgentCard, other_transport, project_interfaces, unreadable, undecodable,
  check_card, interfaces_of, load_agent_card,
}
use a2a_red_panda_server_con.Server.Card.Checked.{IsSkill, check_card-IsChecked}
use a2a_red_panda_server_con.Strings.{trim_right}

-- An interface of the server: at its URL, over its transport, in its version.
abbrev pub IsServed : (http_json version url : Text) → Option AgentInterface → Type 0
IsServed http_json version url i =
    i ≡ some (record { url = url; protocol_binding = http_json; protocol_version = version })

-- A card that describes what the server has: complete, with complete skills, with streaming and no
-- other capability, with no security and no signature of its own, and with one or more interfaces,
-- all of them the server's.
abbrev pub IsPublishable : {Rest : Type 0} (http_json version url : Text) → AgentCard Rest → Type 0
IsPublishable http_json version url card =
    (card.name ≢ [])
    × (card.description ≢ [])
    × (card.version ≢ [])
    × (card.skills ≢ [])
    × (card.default_input_modes ≢ [])
    × (card.default_output_modes ≢ [])
    × All IsSkill card.skills
    × (card.capabilities ≡ record {
      streaming = true;
      push_notifications = false;
      extended_agent_card = false;
      extensions = [];
    })
    × (card.security_schemes ≡ [])
    × (card.security_requirements ≡ [])
    × (card.signatures ≡ [])
    × (card.supported_interfaces ≢ [])
    × All (IsServed http_json version url) card.supported_interfaces

project_interfaces-All :
    (http_json version url : Text) (l projected : List (Option AgentInterface))
    → project_interfaces http_json version url l ≡ ok projected
    → All (IsServed http_json version url) projected × (length projected ≡ length l)
unfolding project_interfaces
project_interfaces-All http_json version url [] projected h = rw (← ok-injective h) (tt, refl)
project_interfaces-All http_json version url (none ∷ l) projected h = cc
project_interfaces-All http_json version url (some i ∷ l) projected h =
    let other = not (text_eq i.protocol_binding http_json) in
    let (_, supported, h) = >>=-eq-ok (refuse_if other (other_transport i.protocol_binding)) _ h in
    let (rest, done, h) = >>=-eq-ok (project_interfaces http_json version url l) _ h in
    let (served, count) = project_interfaces-All http_json version url l rest done in
    let same : i.protocol_binding ≡ http_json = (text_eq_iff i.protocol_binding http_json).0 (
      not-false (text_eq i.protocol_binding http_json)
        (refuse_if-eq-ok other (other_transport i.protocol_binding) supported)) in
    rw (← ok-injective h) (
      (
        ap (λ b. some (record { url = url; protocol_binding = b; protocol_version = version }))
            same,
        served,
      ),
      ap suc count,
    )

interfaces_of_given :
    (http_json version url : Text) (l projected : List (Option AgentInterface))
    → length projected ≡ length (interfaces_of http_json version url l)
    → projected ≢ []
unfolding interfaces_of
interfaces_of_given http_json version url [] [] h = cc
interfaces_of_given http_json version url (i ∷ l) [] h = cc
interfaces_of_given http_json version url l (i ∷ projected) h = cc

-- A card that was loaded is complete and describes what the server has: all its interfaces, one or
-- more, are at the public base URL without slashes at its end, over the SDK's HTTP transport and in
-- its version; its only capability is streaming; and it has no security and no signature yet.
pub load_agent_card-IsPublishable :
    {Rest : Type 0} (http_json version : Text) (read_file : Text → Option Text)
    (decode : Text → Option (AgentCard Rest)) (path base : Text) (card : AgentCard Rest)
    → load_agent_card http_json version read_file decode path base ≡ ok card
    → IsPublishable http_json version (trim_right (str "/") base) card
unfolding load_agent_card
load_agent_card-IsPublishable http_json version read_file decode path base card h =
    let url = trim_right (str "/") base in
    let (contents, _, h) = >>=-eq-ok (or_fail (read_file path) unreadable) _ h in
    let (read, _, h) = >>=-eq-ok (or_fail (decode contents) undecodable) _ h in
    let (_, checked, h) = >>=-eq-ok (check_card read) _ h in
    let (interfaces, projected, h) =
      >>=-eq-ok
        (project_interfaces http_json version url
          (interfaces_of http_json version url read.supported_interfaces))
        _ h in
    let (served, count) =
      project_interfaces-All http_json version url
        (interfaces_of http_json version url read.supported_interfaces) interfaces projected in
    let (c0, c1, c2, c3, c4, c5, c6, c7, c8, c9, c10) = check_card-IsChecked read checked in
    subst (IsPublishable http_json version url) (ok-injective h) (
      c0,
      c1,
      c2,
      c3,
      c4,
      c5,
      c6,
      c7,
      c8,
      c9,
      c10,
      interfaces_of_given http_json version url read.supported_interfaces interfaces count,
      served,
    )

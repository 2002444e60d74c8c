-- ===== src/Server/Card/Checked.antt =====
-- What the tests on a card establish.
use a2a_red_panda_server_con.Prelude.{
  text_eq, ℕ, suc, ◌≡◌, refl, ◌≢◌, true, false, ◌||◌, not, List, [], ◌∷◌, arith, ◌==◌, not-false,
  ok, length, All, length_not_zero, refuse_if, >>=-eq-ok, refuse_if-eq-ok,
}
use a2a_red_panda_server_con.Config.Parts.{not_empty}
use a2a_red_panda_server_con.Server.Card.{
  Skill, Capabilities, AgentCard, incomplete, no_modes, no_streaming, other_capabilities,
  card_security, card_signatures, incomplete_skill, skill_security, check_skills, check_card,
}

-- A skill is complete, and asks for no security of its own.
abbrev pub IsSkill : Skill → Type 0
IsSkill skill =
    (skill.id ≢ [])
    × (skill.name ≢ [])
    × (skill.description ≢ [])
    × (skill.tags ≢ [])
    × (skill.security_requirements ≡ [])

no_elements : {A : Type 0} (l : List A) → not (length l == 0) ≡ false → l ≡ []
no_elements [] h = refl
no_elements (x ∷ l) h = ground (arith, h)

check_skills-All : (n : ℕ) (l : List Skill) → check_skills n l ≡ ok tt → All IsSkill l
unfolding check_skills
check_skills-All n [] h = tt
check_skills-All n (skill ∷ l) h =
    let bad =
      text_eq skill.id []
      || text_eq skill.name []
      || text_eq skill.description []
      || length skill.tags == 0 in
    let (_, whole, h) = >>=-eq-ok (refuse_if bad (incomplete_skill n)) _ h in
    let (_, free, h) =
      >>=-eq-ok (refuse_if (not (length skill.security_requirements == 0)) (skill_security n)) _
        h in
    let fine : bad ≡ false = refuse_if-eq-ok bad (incomplete_skill n) whole in
    (
      (
        not_empty skill.id (ground (arith, fine)),
        not_empty skill.name (ground (arith, fine)),
        not_empty skill.description (ground (arith, fine)),
        length_not_zero skill.tags (ground (arith, fine)),
        no_elements skill.security_requirements (
            refuse_if-eq-ok (not (length skill.security_requirements == 0)) (skill_security n)
              free),
      ),
      check_skills-All (suc n) l h,
    )

-- What the tests on the card establish.
abbrev pub IsChecked : {Rest : Type 0} → AgentCard Rest → Type 0
IsChecked card =
    (card.name ≢ [])
    × (card.description ≢ [])
    × (card.version ≢ [])
    × (card.skills ≢ [])
    × (card.default_input_modes ≢ [])
    × (card.default_output_modes ≢ [])
    × All IsSkill card.skills
    × (card.capabilities ≡ record {
      streaming = true;
      push_notifications = false;
      extended_agent_card = false;
      extensions = [];
    })
    × (card.security_schemes ≡ [])
    × (card.security_requirements ≡ [])
    × (card.signatures ≡ [])

only_streaming :
    (c : Capabilities)
    → not c.streaming ≡ false
    → (c.push_notifications || c.extended_agent_card || not (length c.extensions == 0)) ≡ false
    → c ≡ record {
      streaming = true;
      push_notifications = false;
      extended_agent_card = false;
      extensions = [];
    }
only_streaming c on others =
    let streaming = not-false c.streaming on in
    let push : c.push_notifications ≡ false = ground (arith, others) in
    let extended : c.extended_agent_card ≡ false = ground (arith, others) in
    let extensions = no_elements c.extensions (ground (arith, others)) in cc

pub check_card-IsChecked :
    {Rest : Type 0} (card : AgentCard Rest) → check_card card ≡ ok tt → IsChecked card
unfolding check_card
check_card-IsChecked card h =
    let bare =
      text_eq card.name []
      || text_eq card.description []
      || text_eq card.version []
      || length card.skills == 0 in
    let modeless = length card.default_input_modes == 0 || length card.default_output_modes == 0 in
    let more =
      card.capabilities.push_notifications
      || card.capabilities.extended_agent_card
      || not (length card.capabilities.extensions == 0) in
    let secured =
      not (length card.security_schemes == 0) || not (length card.security_requirements == 0) in
    let (_, h0, h) = >>=-eq-ok (refuse_if bare incomplete) _ h in
    let (_, h1, h) = >>=-eq-ok (refuse_if modeless no_modes) _ h in
    let (_, h2, h) = >>=-eq-ok (check_skills 0 card.skills) _ h in
    let (_, h3, h) = >>=-eq-ok (refuse_if (not card.capabilities.streaming) no_streaming) _ h in
    let (_, h4, h) = >>=-eq-ok (refuse_if more other_capabilities) _ h in
    let (_, h5, h6) = >>=-eq-ok (refuse_if secured card_security) _ h in
    let whole : bare ≡ false = refuse_if-eq-ok bare incomplete h0 in
    let modes : modeless ≡ false = refuse_if-eq-ok modeless no_modes h1 in
    let free : secured ≡ false = refuse_if-eq-ok secured card_security h5 in
    (
      not_empty card.name (ground (arith, whole)),
      not_empty card.description (ground (arith, whole)),
      not_empty card.version (ground (arith, whole)),
      length_not_zero card.skills (ground (arith, whole)),
      length_not_zero card.default_input_modes (ground (arith, modes)),
      length_not_zero card.default_output_modes (ground (arith, modes)),
      check_skills-All 0 card.skills h2,
      only_streaming card.capabilities
          (refuse_if-eq-ok (not card.capabilities.streaming) no_streaming h3)
          (refuse_if-eq-ok more other_capabilities h4),
      no_elements card.security_schemes (ground (arith, free)),
      no_elements card.security_requirements (ground (arith, free)),
      no_elements card.signatures
          (refuse_if-eq-ok (not (length card.signatures == 0)) card_signatures h6),
    )

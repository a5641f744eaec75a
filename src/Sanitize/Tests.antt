-- ===== src/Sanitize/Tests.antt =====
-- A script in entities, and one in tags.
use a2a_agent_layer.Common.{◌≡◌, refl, [], codes, text_eq, lower_case}
use a2a_agent_layer.Common.Json.{str, obj, end, field}
use a2a_agent_layer.Common.Trim.{trim, drop_spaces}
use a2a_agent_layer.Validation.{span}
use a2a_agent_layer.Blockchain.Retry.{starts_with}
use a2a_agent_layer.Sanitize.{
  replace_matches, replace_all, index_of_gt, tag, literal, literal_any_case, handler, strip_html,
  sanitize, transform, body,
}
use a2a_agent_layer.Sanitize.Entities.{strip_html-entities}

strip_html-entities_example : strip_html (codes "&lt;script&gt;") ≡ codes "<script>"
strip_html-entities_example = strip_html-entities (codes "script") (refl, refl, refl, refl, refl)

removes_tags : transform (str (codes " a<b>c onload =x")) body ≡ str (codes "ac x")
unfolding transform sanitize strip_html replace_all replace_matches tag index_of_gt literal
    literal_any_case handler starts_with lower_case span text_eq trim drop_spaces
removes_tags = refl

drops_proto :
    sanitize (obj (field (codes "__proto__") (str []) (field (codes "a") (str (codes " b")) end)))
    ≡ obj (field (codes "a") (str (codes "b")) end)
unfolding sanitize strip_html replace_all replace_matches tag index_of_gt literal literal_any_case
    handler starts_with lower_case span text_eq trim drop_spaces
drops_proto = refl

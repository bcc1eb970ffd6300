-- ===== src/Agent/Soul.antt =====
-- `SoulBuilder.build` of sdk/wapsell/agent/soul.py.
use wapsell_saas.Prelude.{
  ℕ, Bool, true, Option, none, some, List, [], ◌∷◌, ◌++◌, Text, codes, strip_by, map, if◌then◌else◌,
}
use wapsell_saas.Models.{SoulConfig, Tenant}

-- `sep.join(parts)`
unfoldable pub join : Text → List Text → Text
join sep [] = []
join sep (x ∷ []) = x
join sep (x ∷ y ∷ xs) = x ++ (sep ++ join sep (y ∷ xs))

abbrev pub newline : Text
newline = 10 ∷ []

unfoldable pub default_config : SoulConfig
default_config = record {
  language = codes "español";
  tone = codes "cercano y profesional";
  mission = codes "Vender los productos del catálogo y cerrar ventas por WhatsApp.";
  rules =
      codes "Nunca inventes stock ni precios."
      ∷ codes "Confirmá el pago antes de dar por cerrada una venta."
      ∷ codes "Si no sabés algo, decilo y ofrecé escalarlo a un humano."
      ∷ [];
  include_skills = true;
}

-- The text of `_SKILLS_SECTION`, by lines; it ends with a newline.
unfoldable pub skills_section : Text
unfolding join
skills_section = join newline (
    codes "## Available skills"
    ∷ []
    ∷ codes "You have access to these skills. Call them by name with the required parameters."
    ∷ []
    ∷ codes "### catalog-lookup"
    ∷ codes "Retrieve product facts (name, price, stock) from the catalog."
    ∷ codes "Parameters: `query` (product name or id)."
    ∷ codes "Returns: matching product list with source attribution."
    ∷ []
    ∷ codes "### lead-qualifier"
    ∷ codes "Score an inbound message for buying intent."
    ∷ codes "Parameters: `message` (the customer's text)."
    ∷ codes "Returns: intent_score (0-100), tag (cold/warm/hot), suggested next action."
    ∷ []
    ∷ codes "### sales-closer"
    ∷ codes "Drive a conversation stage by stage toward a closed sale."
    ∷ codes "Parameters: `current_stage`, `message` (customer's latest reply)."
    ∷ codes "Returns: next_stage, prompt for what to say, and whether the conversation is terminal."
    ∷ []
    ∷ [])

-- `config or tenant.soul_config or SoulConfig()`
unfoldable pub resolve_config : Option SoulConfig → Tenant → SoulConfig
unfolding default_config
resolve_config (some c) t = c
resolve_config none t = elim t.soul_config [ none ↦ default_config | some c ↦ c ]

unfoldable pub learning_section : (ℕ → Bool) → Text → Text
unfolding strip_by
learning_section is_space hints = elim (strip_by is_space hints) [
  | [] ↦ []
  | c ∷ s ↦ newline ++ ((c ∷ s) ++ newline)
]

-- The template filled in, by lines.
unfoldable pub build : (ℕ → Bool) → Tenant → Option SoulConfig → Text → Text
unfolding resolve_config learning_section skills_section join
build is_space t config hints =
    let c = resolve_config config t in
    join newline (
      (codes "# SOUL — " ++ t.name)
      ∷ []
      ∷ (codes "You are the WhatsApp sales agent for **"
          ++ (t.name ++ (codes "**. Speak in " ++ (c.language ++ codes ", in a"))))
      ∷ (c.tone ++ codes " tone. You represent the brand; never reveal you are an AI unless asked.")
      ∷ []
      ∷ codes "## Mission"
      ∷ c.mission
      ∷ []
      ∷ codes "## Rules"
      ∷ join newline (map (λ r. codes "- " ++ r) c.rules)
      ∷ []
      ∷ ((if c.include_skills then skills_section else []) ++ learning_section is_space hints)
      ∷ []
      ∷ codes "## Goal protocol"
      ∷ codes "On every message, pursue: identify the buyer's need, present matching products"
      ∷ codes "from the catalog, handle objections honestly, and drive to a confirmed payment."
      ∷ codes "Never invent stock or prices — look them up."
      ∷ []
      ∷ [])

-- ===== src/Events/AttributeLines.antt =====
-- A line of the saved file in the hands of the reader: the attributes of an event.
use service_excutor.Prelude.{
  ℕ, ◌≡◌, refl, sym, ◌∙◌, ap, Bool, true, false, List, [], ◌∷◌, ◌++◌, Text, Map, codes, text_eqb,
  nat_eqb, All, map, append_assoc, arith,
}
use service_excutor.Types.{SaceEventParams, SaceCommandParams, c_str}
use service_excutor.Params.Triggers.{PropertyTrigger, BootTrigger}
use service_excutor.Params.Parsing.{Trigger, on_property, on_boot, add_properties, add_property}
use service_excutor.Ini.Attributes.{
  Stream, parse_service_attr, parse_service_attr-property, tag_attr, one_word, trigger_attr,
  has_prefix,
}
use service_excutor.Ini.Lexing.{trim_space_char, trim_left, trim_right, trim_end}
use service_excutor.Ini.Sections.{attributes, Attribute}
use service_excutor.Ini.Lines.{with_nul}
use service_excutor.Events.Saving.{trigger_to_string, property_to_string}

-- The line of a trigger.
abbrev pub trigger_text : Trigger → Text
trigger_text t = codes "  trigger " ++ trigger_to_string t

-- The lines of user, group and label.
abbrev pub identity_texts : SaceCommandParams → List Text
identity_texts p =
    (codes "  user " ++ c_str p.uid)
    ∷ (codes "  group " ++ c_str p.gid)
    ∷ (codes "  seclabel " ++ c_str p.seclabel)
    ∷ []

-- What the reader makes of the properties: the name with its colon, the value with its equal sign
-- and the NUL of the line.
abbrev pub saved_pairs : List Trigger → List (Text × Text)
saved_pairs [] = []
saved_pairs (on_property t ∷ ts) =
    (58 ∷ t.property_name, 61 ∷ with_nul t.property_value) ∷ saved_pairs ts
saved_pairs (on_boot t ∷ ts) = saved_pairs ts

abbrev pub identified : SaceCommandParams → SaceEventParams → SaceEventParams
identified p q = record q {
  base = record q.base {
    uid = with_nul (c_str p.uid);
    gid = with_nul (c_str p.gid);
    seclabel = with_nul (c_str p.seclabel);
  };
}

-- New parameters after the lines.
abbrev pub restored : SaceEventParams → SaceCommandParams → List Trigger → SaceEventParams
restored fresh p ts = add_properties (saved_pairs ts) (identified p fresh)

-- The stream takes the line of an attribute apart into its tag and one word, the value with the
-- NUL of the line.
abbrev pub Splits : Stream → Text → Text → Type 0
Splits z tag value =
    (z.good (tag ++ 32 ∷ with_nul value) ≡ true)
    × (z.words (tag ++ 32 ∷ with_nul value) ≡ tag ∷ with_nul value ∷ [])

abbrev pub SplitsTrigger : Stream → Trigger → Type 0
SplitsTrigger z (on_property t) =
    Splits z (codes "trigger") (property_to_string t)
    × All (λ c. nat_eqb c 61 ≡ false) t.property_name
SplitsTrigger z (on_boot t) = Splits z (codes "trigger") (codes "boot")

boot_same : (p : SaceEventParams) → p.boot ≡ true → record p { boot = true } ≡ p
boot_same p b = ap (λ x. record p { boot = x }) (sym b)

module _ (isspace : ℕ → Bool) (blank : isspace 32 ≡ true) (nul : isspace 0 ≡ false) where
  trim_end-nul : (s : Text) → trim_end isspace (with_nul s) ≡ with_nul s
  unfolding trim_end
  trim_end-nul [] = rw nul refl
  trim_end-nul (c ∷ []) = ground (arith, nul)
  trim_end-nul (c ∷ d ∷ s) = rw (trim_end-nul (d ∷ s)) refl

  pub trim-word :
      (c : ℕ) (s : Text)
      → isspace c ≡ false
      → trim_space_char isspace (with_nul (c ∷ s)) ≡ with_nul (c ∷ s)
  unfolding trim_space_char trim_left trim_right
  trim-word c s h = rw (h, trim_end-nul s) refl

  pub trim-indented :
      (c : ℕ) (s : Text)
      → isspace c ≡ false
      → trim_space_char isspace (32 ∷ 32 ∷ with_nul (c ∷ s)) ≡ with_nul (c ∷ s)
  unfolding trim_space_char trim_left trim_right
  trim-indented c s h = rw (blank, h, trim_end-nul s) refl

  -- The first letters of the tags.
  abbrev pub Letters : Type 0
  Letters =
      (isspace 103 ≡ false) × (isspace 115 ≡ false) × (isspace 116 ≡ false) × (isspace 117 ≡ false)

  module _ (letters : Letters) (z : Stream) (caps limits : Map Text ℕ)
      (fresh : SaceEventParams) where
    property_line_lem :
        (t : PropertyTrigger) (p : SaceEventParams)
        → SplitsTrigger z (on_property t)
        → parse_service_attr z caps limits
            (trim_space_char isspace (with_nul (trigger_text (on_property t))))
            p
          ≡ add_property (58 ∷ t.property_name) (61 ∷ with_nul t.property_value) p
    unfolding property_to_string trigger_to_string
    property_line_lem t p ((g, w), a) =
        let line = trim-indented 116 (codes "rigger " ++ property_to_string t) letters.2 in
        let split =
          append_assoc (codes "property:" ++ t.property_name) (codes "=" ++ t.property_value)
            (0 ∷ []) in
        ap (λ l. parse_service_attr z caps limits l p) line
        ∙ parse_service_attr-property z caps limits
            (with_nul (codes "trigger " ++ property_to_string t)) t.property_name
            (with_nul t.property_value) p g (w ∙ ap (λ v. codes "trigger" ∷ v ∷ []) split) a

    boot_line_lem :
        (t : BootTrigger) (p : SaceEventParams)
        → SplitsTrigger z (on_boot t)
        → p.boot ≡ true
        → parse_service_attr z caps limits
            (trim_space_char isspace (with_nul (trigger_text (on_boot t))))
            p
          ≡ p
    unfolding parse_service_attr tag_attr one_word trigger_attr has_prefix text_eqb
        trigger_to_string
    boot_line_lem t p (g, w) b =
        let line = trim-indented 116 (codes "rigger boot") letters.2 in
        rw (line, g, w) (boot_same p b)

    triggers_lem :
        (ts : List Trigger) (p : SaceEventParams)
        → All (SplitsTrigger z) ts
        → p.boot ≡ true
        → attributes isspace z caps limits fresh (map with_nul (map trigger_text ts)) p
          ≡ add_properties (saved_pairs ts) p
    unfolding attributes add_properties add_property
    triggers_lem [] p h b = refl
    triggers_lem (on_property t ∷ ts) p (h, hs) b =
        ap (attributes isspace z caps limits fresh (map with_nul (map trigger_text ts)))
          (property_line_lem t p h)
        ∙ triggers_lem ts (add_property (58 ∷ t.property_name) (61 ∷ with_nul t.property_value) p)
            hs b
    triggers_lem (on_boot t ∷ ts) p (h, hs) b =
        ap (attributes isspace z caps limits fresh (map with_nul (map trigger_text ts)))
          (boot_line_lem t p h b)
        ∙ triggers_lem ts p hs b

    -- The user, the group and the label.
    abbrev pub SplitsIdentity : SaceCommandParams → Type 0
    SplitsIdentity p =
        Splits z (codes "user") (c_str p.uid)
        × Splits z (codes "group") (c_str p.gid)
        × Splits z (codes "seclabel") (c_str p.seclabel)

    attribute_lem :
        (c : ℕ) (s tag value : Text) (p : SaceEventParams)
        → isspace c ≡ false
        → z.good (with_nul (c ∷ s)) ≡ true
        → z.words (with_nul (c ∷ s)) ≡ tag ∷ value ∷ []
        → parse_service_attr z caps limits (trim_space_char isspace (32 ∷ 32 ∷ with_nul (c ∷ s))) p
          ≡ tag_attr z caps limits (with_nul (c ∷ s)) tag (value ∷ []) p
    unfolding parse_service_attr
    attribute_lem c s tag value p h g w =
        ap (λ l. parse_service_attr z caps limits l p) (trim-indented c s h) ∙ simp (g, w) refl

    pub attributes-restored :
        (p : SaceCommandParams) (ts : List Trigger)
        → SplitsIdentity p
        → All (SplitsTrigger z) ts
        → fresh.boot ≡ true
        → attributes isspace z caps limits fresh
            (map with_nul (identity_texts p ++ map trigger_text ts))
            fresh
          ≡ restored fresh p ts
    unfolding attributes tag_attr one_word text_eqb
    attributes-restored p ts ((g, w), (g', w'), (g'', w'')) hs b =
        let rest = map with_nul (map trigger_text ts) in
        let p1 : SaceEventParams = record fresh {
          base = record fresh.base { uid = with_nul (c_str p.uid) };
        } in
        let p2 : SaceEventParams = record fresh {
          base = record p1.base { gid = with_nul (c_str p.gid) };
        } in
        let user =
          attribute_lem 117 (codes "ser " ++ c_str p.uid) (codes "user") (with_nul (c_str p.uid))
            fresh letters.3 g w in
        let group =
          attribute_lem 103 (codes "roup " ++ c_str p.gid) (codes "group") (with_nul (c_str p.gid))
            p1 letters.0 g' w' in
        let label =
          attribute_lem 115 (codes "eclabel " ++ c_str p.seclabel) (codes "seclabel")
            (with_nul (c_str p.seclabel)) p2 letters.1 g'' w'' in
        ap
          (attributes isspace z caps limits fresh (
            with_nul (codes "  group " ++ c_str p.gid)
            ∷ with_nul (codes "  seclabel " ++ c_str p.seclabel)
            ∷ rest))
          user
        ∙ ap
            (attributes isspace z caps limits fresh
              (with_nul (codes "  seclabel " ++ c_str p.seclabel) ∷ rest))
            group
        ∙ ap (attributes isspace z caps limits fresh rest) label
        ∙ triggers_lem ts (identified p fresh) hs b

    trigger_text-Attribute :
        (t : Trigger) → Attribute isspace z caps limits fresh (with_nul (trigger_text t))
    unfolding trigger_to_string property_to_string
    trigger_text-Attribute (on_property t) =
        rw (trim-indented 116 (codes "rigger " ++ property_to_string t) letters.2) (refl, refl)
    trigger_text-Attribute (on_boot t) =
        rw (trim-indented 116 (codes "rigger boot") letters.2) (refl, refl)

    texts-Attribute :
        (ts : List Trigger)
        → All (Attribute isspace z caps limits fresh) (map with_nul (map trigger_text ts))
    texts-Attribute [] = tt
    texts-Attribute (t ∷ ts) = (trigger_text-Attribute t, texts-Attribute ts)

    pub identity_texts-Attribute :
        (p : SaceCommandParams) (ts : List Trigger)
        → All
            (Attribute isspace z caps limits fresh)
            (map with_nul (identity_texts p ++ map trigger_text ts))
    identity_texts-Attribute p ts =
        let user = trim-indented 117 (codes "ser " ++ c_str p.uid) letters.3 in
        let group = trim-indented 103 (codes "roup " ++ c_str p.gid) letters.0 in
        let label = trim-indented 115 (codes "eclabel " ++ c_str p.seclabel) letters.1 in
        (rw user (refl, refl), (rw group (refl, refl), (rw label (refl, refl), texts-Attribute ts)))

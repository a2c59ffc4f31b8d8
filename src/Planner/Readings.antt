-- ===== src/Planner/Readings.antt =====
-- What change_planner.py reads out of the words of a request: directions, parameters, numbers.
use Prim.Native.String.{[], ◌∷◌}
use twinstudio.Base.{
  ◌+◌, ◌-◌, String, Bool, true, false, not, ◌&&◌, ◌||◌, Option, none, some, List, any, first,
  select, ◌==◌, if◌then◌else◌,
}
use twinstudio.Base.Text.{replace_character, skip}
use twinstudio.Base.Letters.{size, upto, find_text, has_text}
use twinstudio.Base.Dict.{Dict, get, has}
use twinstudio.Base.Json.{Float}
use twinstudio.Domain.Objects.{ObjectNode}
use twinstudio.Domain.Snapshot.{ProjectSnapshot}
use twinstudio.Planner.{Tools}
use twinstudio.Planner.Heights.{scalar_number, physical_component_height}

-- the text without its combining characters
without_marks : Tools → String → String
without_marks tools [] = []
without_marks tools (c ∷ s) =
    let rest = without_marks tools s in if tools.combining c then rest else c ∷ rest

unfoldable pub normalized_text : Tools → String → String
unfolding without_marks replace_character
normalized_text tools text =
    replace_character "ł" "l" (without_marks tools (tools.decompose (tools.casefold text)))

abbrev pub found : Tools → String → String → Bool
found tools pattern text = elim (tools.search pattern text) [ none ↦ false | some groups ↦ true ]

-- `re.search(pattern, text).group(1)` as a float, with a comma for the point
abbrev pub first_group : Tools → Option (List String) → Option Float
unfolding replace_character
first_group tools (some (List.◌∷◌ group groups)) =
    some (tools.parse_float (replace_character "," "." group))
first_group tools _ = none

abbrev pub first_number : Tools → String → Option Float
first_number tools text = first_group tools (tools.search "(?<![\\w.])(\\d+(?:[.,]\\d+)?)" text)

abbrev pub parameter_aliases : Dict (List String)
parameter_aliases =
    List.◌∷◌
      (
        "wall_thickness",
        List.◌∷◌ "grubosc scian" (List.◌∷◌ "grubosc scianki" (List.◌∷◌ "wall thickness" List.[])),
      )
      (List.◌∷◌
        (
          "floor_thickness",
          List.◌∷◌ "grubosc dna" (List.◌∷◌ "grubosc podlogi" (List.◌∷◌ "floor thickness" List.[])),
        )
        (List.◌∷◌ ("height", List.◌∷◌ "wysokosc" (List.◌∷◌ "height" List.[]))
          (List.◌∷◌ ("width", List.◌∷◌ "szerokosc" (List.◌∷◌ "width" List.[]))
            (List.◌∷◌ ("depth", List.◌∷◌ "glebokosc" (List.◌∷◌ "depth" List.[])) List.[]))))

pub data Direction : Type 0 where
  down up : Direction

unfoldable pub relative_direction : Tools → String → Option Direction
unfolding normalized_text
relative_direction tools text =
    let normalized = normalized_text tools text in
    if found tools "\\b(?:zmniejsz|zmniejszyc|obniz|skroc|reduce|decrease|lower)\\b" normalized
    then some down
    else if found tools "\\b(?:zwieksz|zwiekszyc|podnies|wydluz|increase|raise)\\b" normalized
    then some up
    else none

abbrev pub implies_selected_height : Tools → String → Bool
implies_selected_height tools normalized =
    found tools "\\b(?:obniz|podnies|lower|raise)\\b" normalized

-- the first parameter of the object that the text names
abbrev pub named_parameter : Dict (List String) → ObjectNode → String → Option String
unfolding has_text
named_parameter aliases node normalized =
    elim (first
      (λ entry. has entry.0 node.parameters && any (λ alias. has_text alias normalized) entry.1)
      aliases) [ none ↦ none | some entry ↦ some entry.0 ]

-- the parameter, or the height when the text only says which way
abbrev pub changed_parameter : Tools → Dict (List String) → ObjectNode → String → Option String
unfolding has_text
changed_parameter tools aliases node normalized = elim (named_parameter aliases node normalized) [
  | some parameter ↦ some parameter
  | none ↦ if implies_selected_height tools normalized then some "height" else none
]

-- `unit or "mm"`
abbrev pub unit_text : Option String → String
unit_text none = "mm"
unit_text (some unit) = if unit == "" then "mm" else unit

unfoldable pub parameter_measurement :
    Tools → ProjectSnapshot → String → String → Option (Float × String)
unfolding physical_component_height
parameter_measurement tools project target parameter = elim (get target project.objects) [
  | none ↦ none
  | some node ↦ elim (get parameter node.parameters) [
    | some existing ↦ elim (scalar_number tools existing.value) [
      | none ↦ none
      | some x ↦ some (x, unit_text existing.unit)
    ]
    | none ↦
        if parameter == "height"
        then elim (physical_component_height tools project target) [
          | none ↦ none
          | some x ↦ some (x, "mm")
        ]
        else none
  ]
]

-- the amount of a match, in millimetres; 0x4024000000000000 is 10.0
abbrev pub amount_of : Tools → List String → Option Float
unfolding replace_character
amount_of tools (List.◌∷◌ number (List.◌∷◌ unit rest)) =
    let amount = tools.parse_float (replace_character "," "." number) in
    some (if unit == "cm" then tools.multiply amount 0x4024000000000000 else amount)
amount_of tools _ = none

abbrev pub amount_in : Tools → Option (List String) → Option Float
unfolding replace_character
amount_in tools none = none
amount_in tools (some groups) = amount_of tools groups

-- the parameter, its previous value in millimetres, and the amount of the match
abbrev pub measured :
    Tools
    → ProjectSnapshot
    → String
    → Option String
    → Option Float
    → Option (String × Float × Float)
unfolding parameter_measurement
measured tools project target (some parameter) (some amount) =
    elim (parameter_measurement tools project target parameter) [
      | none ↦ none
      | some (previous, unit) ↦ if unit == "mm" then some (parameter, previous, amount) else none
    ]
measured tools project target _ _ = none

-- what `_relative_parameter_change` and `_absolute_parameter_change` find; the unit is always `mm`
pub record ParameterChange : Type 0 where
  pub parameter : String
  pub previous_value : Float
  pub new_value : Float
  pub delta : Float

-- `direction * amount`; 0xbff0000000000000 is -1.0 and 0x3ff0000000000000 is 1.0
abbrev pub signed : Tools → Direction → Float → Float
signed tools down amount = tools.multiply 0xbff0000000000000 amount
signed tools up amount = tools.multiply 0x3ff0000000000000 amount

-- the change, when the amount and the new value are positive
abbrev pub relative_change : Tools → Direction → String × Float × Float → Option ParameterChange
relative_change tools direction (parameter, previous, amount) =
    let delta = signed tools direction amount in
    let new_value = tools.round_6 (tools.add previous delta) in
    if tools.at_most amount 0 || tools.at_most new_value 0
    then none
    else some record {
      parameter = parameter;
      previous_value = previous;
      new_value = new_value;
      delta = delta;
    }

abbrev pub relative_pattern : String
relative_pattern = "\\b(?:o|by)\\s*(\\d+(?:[.,]\\d+)?)\\s*(mm|cm)\\b"

abbrev pub absolute_pattern : String
absolute_pattern = "\\b(?:do|na|to|at)\\s*(\\d+(?:[.,]\\d+)?)\\s*(mm|cm)\\b"

unfoldable pub relative_parameter_change :
    Tools → String → String → ProjectSnapshot → Option ParameterChange
unfolding relative_direction normalized_text has_text replace_character parameter_measurement
relative_parameter_change tools text target project = elim (relative_direction tools text) [
  | none ↦ none
  | some direction ↦ elim (get target project.objects) [
    | none ↦ none
    | some node ↦
        let normalized = normalized_text tools text in
        let parameter = changed_parameter tools parameter_aliases node normalized in
        let amount = amount_in tools (tools.search relative_pattern normalized) in
        elim (measured tools project target parameter amount) [
          | none ↦ none
          | some found_change ↦ relative_change tools direction found_change
        ]
  ]
]

-- the change to a positive target
abbrev pub absolute_change : Tools → String × Float × Float → Option ParameterChange
absolute_change tools (parameter, previous, amount) =
    let new_value = tools.round_6 amount in
    if tools.at_most new_value 0
    then none
    else some record {
      parameter = parameter;
      previous_value = previous;
      new_value = new_value;
      delta = 0;
    }

-- the aliases without those of the wall
abbrev pub absolute_aliases : Dict (List String)
absolute_aliases = select (λ entry. not (entry.0 == "wall_thickness")) parameter_aliases

unfoldable pub absolute_parameter_change :
    Tools → String → String → ProjectSnapshot → Option ParameterChange
unfolding normalized_text has_text replace_character parameter_measurement
absolute_parameter_change tools text target project = elim (get target project.objects) [
  | none ↦ none
  | some node ↦
      let normalized = normalized_text tools text in
      let parameter = changed_parameter tools absolute_aliases node normalized in
      let amount = amount_in tools (tools.search absolute_pattern normalized) in
      elim (measured tools project target parameter amount) [
        | none ↦ none
        | some found_change ↦ absolute_change tools found_change
      ]
]

-- the number near one of the terms, from 30 characters before it to 40 behind it
unfoldable pub number_near : Tools → String → List String → Option Float
unfolding find_text skip upto size replace_character
number_near tools text List.[] = none
number_near tools text (List.◌∷◌ term terms) =
    let rest = number_near tools text terms in
    elim (find_text term text) [
      | none ↦ rest
      | some index ↦
          let window = skip (index - 30) (upto (index + size term + 40) text) in
          elim (first_number tools window) [ some x ↦ some x | none ↦ rest ]
    ]

abbrev pub diameter_of : Tools → String → Option Float
diameter_of tools text =
    first_group tools
      (tools.search "(?:ø|⌀|diameter|średnic\\w*|srednic\\w*)\\s*[:=]?\\s*(\\d+(?:[.,]\\d+)?)" text)

abbrev pub angle_of : Tools → String → Option Float
angle_of tools text =
    first_group tools (tools.search "(\\d+(?:[.,]\\d+)?)\\s*(?:°|deg|degree|stopni)" text)

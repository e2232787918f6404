-- ===== src/Transpiler/Anthropic/Calls.antt =====
-- src/transpiler/anthropic.rs: the calls of tools, to Anthropic's blocks and back.
use melis.Common.{
  ◌≡◌, refl, ap, inl, inr, String, Option, none, some, List, [], ◌∷◌, ◌++◌, map, keep, All,
  string_eq, ◌==◌, Bool-cases,
}
use melis.Json.{Numbers, Value, Serde, string, json, str_at, array_at}
use melis.Json.Laws.{to_list-of_list}
use melis.Transpiler.Anthropic.{is_tool_use, tool_call, extract_tool_calls}
use melis.Transpiler.Anthropic.Messages.{convert_message, text_block, tool_use}

pub record Call (n : Numbers) : Type 0 where
  pub id : String
  pub name : String
  pub input : Value n

module _ {n : Numbers} (serde : Serde n) where
  -- A call as OpenAI's format has it: its arguments are printed.
  abbrev pub open_ai_call : Call n → Value n
  open_ai_call c = json (
      ("id", string c.id)
      ∷ ("type", string "function")
      ∷ (
        "function",
        json (("name", string c.name) ∷ ("arguments", string (serde.print c.input)) ∷ []),
      )
      ∷ [])

  abbrev pub Reparsed : Call n → Type 0
  Reparsed c = serde.parse (serde.print c.input) ≡ some c.input

  back :
      (c : Call n) → Reparsed c → tool_call serde (tool_use serde (open_ai_call c)) ≡ open_ai_call c
  back c h = rw h refl

  calls_back :
      (cs : List (Call n))
      → All Reparsed cs
      → map (tool_call serde) (keep is_tool_use (map (tool_use serde) (map open_ai_call cs)))
        ≡ map open_ai_call cs
  calls_back [] h = refl
  calls_back (c ∷ cs) h = rw (back c h.0) (rw (calls_back cs h.1) refl)

  -- The text in front is no call.
  text_aside :
      (text : Option String) (blocks : List (Value n))
      → keep is_tool_use (text_block text ++ blocks) ≡ keep is_tool_use blocks
  text_aside none blocks = refl
  text_aside (some t) blocks = elim (Bool-cases (t == "")) [ inl e ↦ rw e refl | inr e ↦ rw e refl ]

  extracted :
      (text : Option String) (c : Call n) (cs : List (Call n))
      → All Reparsed (c ∷ cs)
      → extract_tool_calls serde
          (text_block text ++ map (tool_use serde) (map open_ai_call (c ∷ cs)))
        ≡ some (map open_ai_call (c ∷ cs))
  unfolding extract_tool_calls
  extracted text c cs h =
      rw (text_aside text (map (tool_use serde) (map open_ai_call (c ∷ cs))))
        (rw (calls_back (c ∷ cs) h) refl)

  -- The calls of an assistant's message come back as they were: converted to Anthropic's blocks, with
  -- or without a text in front, and extracted from these as from a response, they are the same, in
  -- order, if the printed arguments of each are parsed as what was printed.
  pub extract_tool_calls-convert_message :
      (msg : Value n) (c : Call n) (cs : List (Call n))
      → str_at "role" msg ≡ some "assistant"
      → array_at "tool_calls" msg ≡ some (map open_ai_call (c ∷ cs))
      → All Reparsed (c ∷ cs)
      → (blocks : List (Value n)) × (array_at "content" (convert_message serde msg) ≡ some blocks)
        × (extract_tool_calls serde blocks ≡ some (map open_ai_call (c ∷ cs)))
  extract_tool_calls-convert_message msg c cs role calls h = (
    text_block (str_at "content" msg) ++ map (tool_use serde) (map open_ai_call (c ∷ cs)),
    rw role (rw calls (ap some (to_list-of_list _))),
    extracted (str_at "content" msg) c cs h,
  )

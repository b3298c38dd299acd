-- ===== src/Json/Call.antt =====
-- source/core/aer_json.c: the calls `json.encode` and `json.decode` on the stack of the machine.
use aer.Base.{
  ℕ, ◌<◌, ◌≡◌, inl, inr, Bool, true, false, ◌&&◌, ◌||◌, List, [], ◌∷◌, ◌++◌, Option, none, some,
  arith, leb, ◌==◌, if◌then◌else◌, length, Bool-cases,
}
use aer.Base.Bytes.{Bytes, codes, str_equal}
use aer.Json.Decode.{Parse, ok, failed, out_of_fuel, json_decode}
use aer.Json.Ends.{Within, returned, stopped, json_decode-Within}
use aer.Json.{Json, JsonBuf, null, string, array, no_items, item, jb_init, json_encode_value}

-- The stack, its top first, and the messages reported by `error`.
pub record Vm : Type 0 where
  pub stack : List Json
  pub errors : List Bytes

abbrev pub stack_max : ℕ
stack_max = 256

abbrev pub report : Vm → Bytes → Vm
report vm msg = record vm { errors = vm.errors ++ (msg ∷ []) }

unfoldable pub stdlib_push : Vm → Json → Vm
stdlib_push vm v =
    if leb stack_max (length vm.stack)
    then report vm (codes "Stack overflow")
    else record vm { stack = v ∷ vm.stack }

abbrev pub pop_from : Vm → List Json → Json × Vm
pop_from vm [] = (null, report vm (codes "Stack underflow"))
pop_from vm (v ∷ rest) = (v, record vm { stack = rest })

unfoldable pub stdlib_pop : Vm → Json × Vm
stdlib_pop vm = pop_from vm vm.stack

abbrev pub pair : Json → Json → Json
pair a b = array (item a (item b no_items))

-- What `json.encode` pushes for the text of a value.
abbrev pub push_text : Vm → Option JsonBuf → Vm
push_text vm none =
    stdlib_push (report vm (codes "json.encode() cannot serialize a function value")) null
push_text vm (some b) = stdlib_push vm (string b.buf)

-- The pair of a value and an error; `none` when the fuel of the decoder runs out
abbrev pub push_pair : Vm → Parse Json → Option Vm
push_pair vm (ok v p) = some (stdlib_push vm (pair v null))
push_pair vm (failed msg) = some (stdlib_push vm (pair null (string msg)))
push_pair vm out_of_fuel = none

abbrev answer_of : Option Vm → Option (Bool × Vm)
answer_of none = none
answer_of (some vm) = some (true, vm)

module _ (print_real : ℕ → Bytes) (strtod : Bytes → ℕ) where
  abbrev pub encode_call : Json × Vm → Vm
  encode_call (v, vm) = push_text vm (json_encode_value print_real v jb_init)

  abbrev pub decode_call : Json × Vm → Option Vm
  decode_call (string s, vm) = push_pair vm (json_decode strtod s)
  decode_call (_, vm) =
      some (stdlib_push (report vm (codes "json.decode() requires a string")) null)

  -- Whether the name is a function of this module, and the machine behind the call.
  unfoldable pub aer_json_call : Vm → Bytes → ℕ → Option (Bool × Vm)
  unfolding stdlib_pop
  aer_json_call vm name arg_count =
      let decoded = decode_call (stdlib_pop vm) in
      if str_equal name (codes "encode") && arg_count == 1
      then some (true, encode_call (stdlib_pop vm))
      else if str_equal name (codes "decode") && arg_count == 1
      then answer_of decoded
      else some (false, vm)

-- A call has one result, in the place of its argument.
pub record Answered (rest : List Json) (o : Option (Bool × Vm)) : Type 0 where
  pub result : Json
  pub messages : List Bytes
  pub answer : o ≡ some (true, record { stack = result ∷ rest; errors = messages })

push_lem :
    (rest : List Json) (es : List Bytes) (v : Json)
    → length rest < stack_max
    → stdlib_push (record { stack = rest; errors = es }) v
      ≡ record { stack = v ∷ rest; errors = es }
unfolding stdlib_push
push_lem rest es v h = let room : leb 256 (length rest) ≡ false = ground arith in rw room

module _ (print_real : ℕ → Bytes) (strtod : Bytes → ℕ) (rest : List Json)
    (h : length rest < stack_max) where
  encode_call-Answered :
      (o : Option JsonBuf) (es : List Bytes)
      → Answered rest (some (true, push_text (record { stack = rest; errors = es }) o))
  encode_call-Answered none es =
      let refusal = es ++ (codes "json.encode() cannot serialize a function value" ∷ []) in
      record { result = null; messages = refusal; answer = rw (push_lem rest refusal null h) }
  encode_call-Answered (some b) es = record {
    result = string b.buf;
    messages = es;
    answer = rw (push_lem rest es (string b.buf) h);
  }

  pair-Answered :
      {n : ℕ} {o : Parse Json} (es : List Bytes)
      → Within n o
      → Answered rest (answer_of (push_pair (record { stack = rest; errors = es }) o))
  pair-Answered es (returned {a = a} k) = record {
    result = pair a null;
    messages = es;
    answer = rw (push_lem rest es (pair a null) h);
  }
  pair-Answered es (stopped {msg = msg}) = record {
    result = pair null (string msg);
    messages = es;
    answer = rw (push_lem rest es (pair null (string msg)) h);
  }

  decode_call-Answered :
      (v : Json) (es : List Bytes)
      → Answered rest
          (answer_of (decode_call print_real strtod (v, record { stack = rest; errors = es })))
  decode_call-Answered (string s) es = pair-Answered es (json_decode-Within strtod s)
  decode_call-Answered _ es =
      let refusal = es ++ (codes "json.decode() requires a string" ∷ []) in
      record { result = null; messages = refusal; answer = rw (push_lem rest refusal null h) }

  -- On any argument, `json.encode` and `json.decode` return, and take the argument off the stack for
  -- one result; the rest of the stack is kept.
  pub aer_json_call-Answered :
      (v : Json) (es : List Bytes) (name : Bytes)
      → (str_equal name (codes "encode") || str_equal name (codes "decode")) ≡ true
      → Answered rest
          (aer_json_call print_real strtod (record { stack = v ∷ rest; errors = es }) name 1)
  unfolding aer_json_call
  aer_json_call-Answered v es name e = elim (Bool-cases (str_equal name (codes "encode"))) [
    | inl t ↦ rw t (encode_call-Answered (json_encode_value print_real v jb_init) es)
    | inr t ↦
        let u : str_equal name (codes "decode") ≡ true = ground arith in
        rw (t, u) (decode_call-Answered v es)
  ]

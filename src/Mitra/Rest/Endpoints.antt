-- ===== src/Mitra/Rest/Endpoints.antt =====
-- The methods of `MitraRestClient`. `data.get(…)` on a value that is no dict raises, and so does a
-- look at the elements of one that is no list.
use saarathi.Common.{
  ℕ, ◌-◌, Text, codes, Bool, true, false, not, Option, none, some, List, [], ◌∷◌, text_eq, last?,
  leb, ◌==◌, if◌then◌else◌,
}
use saarathi.Python.{
  ℤ, pos, negsuc, Json, null, nil, int, str, list, dict, Fields, field, end, Runtime, get, has_key,
  truthy, or_py, elements,
}
use saarathi.Python.Conversions.{str_of, int_of, IntResult, number, not_a_number, overflow}
use saarathi.Exec.{Exec, pure, raise, ◌>>=◌, mitra_error, runtime_error}
use saarathi.Mitra.TurnRecovery.{ChatRow}
use saarathi.Mitra.Rest.{
  MitraRestClient, HttpRequest, Sent, fields_of, type_error, value_error, request,
}

abbrev pub text_or_null : Option Text → Json
text_or_null none = null
text_or_null (some t) = str t

-- `d.get(key, default)`
unfoldable pub get_or : Json → Text → Fields → Json
unfolding get has_key
get_or default key fs = if has_key key fs then get key fs else default

-- the elements that a `for` loop runs over
abbrev pub iterated : {S : Type 0} → Json → Exec S (List Json)
iterated (list vs) = pure (elements vs)
iterated (dict end) = pure []
iterated (str []) = pure []
iterated _ = raise type_error

-- `d["results"]` with a default
unfoldable pub results_of : Fields → Json
unfolding get
results_of fs = get (codes "results") fs

abbrev pub int_of_result : {S : Type 0} → IntResult → Exec S ℤ
int_of_result (number z) = pure z
int_of_result not_a_number = raise value_error
int_of_result overflow = raise (runtime_error (codes "OverflowError"))

-- `"limit"` and `"offset"` of the page that holds the last `tail` of `count` rows
abbrev pub offset_of : ℤ → ℕ → ℕ
offset_of (pos count) tail = count - tail
offset_of (negsuc n) tail = 0

abbrev pub is_zero : ℤ → Bool
is_zero (pos n) = n == 0
is_zero (negsuc n) = false

abbrev at_most : ℤ → ℤ → Bool
at_most (pos a) (pos b) = leb a b
at_most (pos a) (negsuc b) = false
at_most (negsuc a) (pos b) = true
at_most (negsuc a) (negsuc b) = leb b a

-- `rows.sort(key=lambda r: r.id)`, which is stable
unfoldable pub insert_row : ChatRow → List ChatRow → List ChatRow
insert_row row [] = row ∷ []
insert_row row (r ∷ rows) =
    let rest = insert_row row rows in if at_most row.id r.id then row ∷ r ∷ rows else r ∷ rest

unfoldable pub sort_rows : List ChatRow → List ChatRow
unfolding insert_row
sort_rows [] = []
sort_rows (row ∷ rows) = insert_row row (sort_rows rows)

module _ (rt : Runtime) (client : MitraRestClient)
    (send : List HttpRequest → HttpRequest → Sent) where
  abbrev pub Call : Type 0 → Type 0
  Call A = Exec (List HttpRequest) A

  unfoldable pub get_request : Text → List (Text × Json) → Call Fields
  unfolding request ◌>>=◌
  get_request path params = request rt client send (codes "GET") path null params [] >>= fields_of

  unfoldable pub post_request : Text → Json → List (Text × Text) → Call Fields
  unfolding request ◌>>=◌
  post_request path body headers =
      request rt client send (codes "POST") path body [] headers >>= fields_of

  -- the text of a value that must be there
  unfoldable pub required : Text → Json → Call Text
  unfolding truthy str_of
  required message v = if truthy v then pure (str_of rt v) else raise (mitra_error message)

  unfoldable pub upsert_profile : Text → Text → Text → Call Text
  unfolding post_request required get or_py ◌>>=◌
  upsert_profile email latest_flow_used company = do
    answer ←
        post_request client.paths.profile
          (dict (
            field (codes "email") (str email) (
              field (codes "latest_flow_used") (str latest_flow_used)
                (field (codes "company") (str company) end))))
          []
    required (codes "upsert_profile")
        (or_py (get (codes "id") answer) (get (codes "profileid") answer))

  unfoldable pub generate_session : Call Text
  unfolding get_request required get ◌>>=◌
  generate_session = do
    answer ← get_request client.paths.generate_session []
    required (codes "generate_session") (get (codes "sessionid") answer)

  abbrev status_of : Option Json → Call Bool
  unfolding get text_eq ◌>>=◌
  status_of none = pure false
  status_of (some v) = fields_of v >>= λ row.
      pure (elim (get (codes "status") row) [ str s ↦ text_eq s (codes "COMPLETED") | _ ↦ false ])

  unfoldable pub is_session_completed : Option Text → Call Bool
  unfolding get_request results_of truthy status_of ◌>>=◌
  is_session_completed session_id = do
    answer ← get_request client.paths.chat ((codes "session", text_or_null session_id) ∷ [])
    if not (truthy (results_of answer))
        then pure false
        else iterated (results_of answer) >>= λ rows. status_of (last? rows)

  -- `(raw.get("sender") or {}).get("id", "")`
  abbrev sender_id : Fields → Call Text
  unfolding get get_or or_py str_of ◌>>=◌
  sender_id raw = fields_of (or_py (get (codes "sender") raw) (dict end)) >>= λ sender.
      pure (str_of rt (get_or (str []) (codes "id") sender))

  abbrev text_of : Text → Fields → Text
  unfolding get or_py str_of
  text_of key raw = str_of rt (or_py (get key raw) (str []))

  unfoldable pub row_of : Text → Json → Call ChatRow
  unfolding sender_id int_of get or_py text_of text_eq ◌>>=◌
  row_of profile_id v = do
    raw ← fields_of v
    sender ← sender_id raw
    id ← int_of_result (int_of rt (or_py (get (codes "id") raw) (int (pos 0))))
    pure (record {
      id = id;
      from_user = text_eq sender profile_id;
      message = text_of (codes "message") raw;
      translated_message = text_of (codes "translated_message") raw;
      stage = text_of (codes "stage") raw;
    })

  unfoldable pub rows_of : Text → List Json → Call (List ChatRow)
  unfolding row_of ◌>>=◌
  rows_of profile_id [] = pure []
  rows_of profile_id (v ∷ vs) = do
    row ← row_of profile_id v
    rows ← rows_of profile_id vs
    pure (row ∷ rows)

  unfoldable pub recent_page : Text → Text → ℕ → ℤ → Call (List ChatRow)
  unfolding get_request get_or rows_of sort_rows ◌>>=◌
  recent_page session_id profile_id tail count = if is_zero count then pure [] else do
    page ← get_request client.paths.chat (
        (codes "session", str session_id)
        ∷ (codes "limit", int (pos tail))
        ∷ (codes "offset", int (pos (offset_of count tail)))
        ∷ [])
    values ← iterated (get_or (list nil) (codes "results") page)
    rows ← rows_of profile_id values
    pure (sort_rows rows)

  unfoldable pub recent_chat : Text → Text → ℕ → Call (List ChatRow)
  unfolding get_request get or_py int_of recent_page ◌>>=◌
  recent_chat session_id profile_id tail = do
    head ←
        get_request client.paths.chat
          ((codes "session", str session_id) ∷ (codes "limit", int (pos 1)) ∷ [])
    count ← int_of_result (int_of rt (or_py (get (codes "count") head) (int (pos 0))))
    recent_page session_id profile_id tail count

-- ===== src/Multipart/Sections.antt =====
-- The callbacks rebuild the parts of a form.
use shadyurl.Common.{
  ◌≡◌, refl, sym, ap, ◌∙◌, List, [], ◌∷◌, ◌++◌, append_assoc, append-nil, Bytes, Dict, insert,
}
use shadyurl.Boost.{StringAlgo}
use shadyurl.Multipart.{
  Header, MultiPartSection, MultiPartData, Event, header_field, header_value, part_data, new_data,
  parse_header_value, on_event, ingest,
}

-- A part of a form: its headers in order, and its data.
pub record Part : Type 0 where
  pub fields : List (Bytes × Bytes)
  pub content : Bytes

-- The calls of a parser that hands over each header and each part's data whole.
abbrev pub header_events : List (Bytes × Bytes) → List Event → List Event
header_events [] later = later
header_events ((n, v) ∷ fields) later = header_field n ∷ header_value v ∷ header_events fields later

abbrev pub form_events : List Part → List Event
form_events [] = []
form_events (p ∷ parts) = header_events p.fields (part_data p.content ∷ form_events parts)

module _ (b : StringAlgo) where
  abbrev pub parsed_headers : List (Bytes × Bytes) → Dict Header → Dict Header
  parsed_headers [] m = m
  parsed_headers ((n, v) ∷ fields) m = parsed_headers fields (insert n (parse_header_value b v) m)

  abbrev pub parsed_parts : List Part → List MultiPartSection
  parsed_parts [] = []
  parsed_parts (p ∷ parts) =
      record { headers = parsed_headers p.fields []; body = p.content } ∷ parsed_parts parts

  abbrev last_name : List (Bytes × Bytes) → Bytes → Bytes
  last_name [] n = n
  last_name ((n, v) ∷ fields) _ = last_name fields n

  ingest-header_events :
      (fields : List (Bytes × Bytes)) (later : List Event) (mp : MultiPartData)
      → ingest b (header_events fields later) mp
        ≡ ingest b later (record mp {
          cur_header_vals = parsed_headers fields mp.cur_header_vals;
          cur_header_name = last_name fields mp.cur_header_name;
        })
  unfolding ingest on_event
  ingest-header_events [] later mp = refl
  ingest-header_events ((n, v) ∷ fields) later mp = ingest-header_events fields later (record mp {
    cur_header_vals = insert n (parse_header_value b v) mp.cur_header_vals;
    cur_header_name = n;
  })

  ingest_from :
      (parts : List Part) (done : List MultiPartSection) (n : Bytes)
      → (ingest b
          (form_events parts)
          (record { sections = done; cur_header_vals = []; cur_header_name = n })).sections
        ≡ done ++ parsed_parts parts
  unfolding ingest on_event
  ingest_from [] done n = sym (append-nil done)
  ingest_from (p ∷ parts) done n =
      ap (λ mp. mp.sections)
        (ingest-header_events p.fields (part_data p.content ∷ form_events parts)
          (record { sections = done; cur_header_vals = []; cur_header_name = n }))
      ∙ ingest_from parts
          (done ++ record { headers = parsed_headers p.fields []; body = p.content } ∷ [])
          (last_name p.fields n)
      ∙ append_assoc done (record { headers = parsed_headers p.fields []; body = p.content } ∷ [])
          (parsed_parts parts)

  -- Where the parser hands over each header and each part's data whole, `get_data` gives the parts in
  -- order, each with its data and its own headers, parsed, of which the last of a name counts.
  pub ingest-form_events :
      (parts : List Part) → (ingest b (form_events parts) new_data).sections ≡ parsed_parts parts
  ingest-form_events parts = ingest_from parts [] []

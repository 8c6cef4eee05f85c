-- ===== src/Examples/Streams.antt =====
-- Terminal output in chunks, a frame in chunks, and a directory's name.
use mechagnome.Base.{
  arith, inl, ℕ, ◌≡◌, refl, sym, ◌++◌, true, Option, none, some, List, [], ◌∷◌, nat_eq, string_eq,
}
use mechagnome.Base.Rows.{length}
use mechagnome.Schema.Host.{Host, Json, Fields}
use mechagnome.Names.{is_toolbox_name, codes, is_name_char, all_of}
use mechagnome.Names.Defaults.{default_name, default_name-is_toolbox_name}
use mechagnome.Runner.Sanitizer.{
  text, feed, All, IsHarmless, feed-IsHarmless, feed-removes, control, is_plain,
}
use mechagnome.Provider.Frames.{done, pack, Stream, encode_frame, receive_frame}
use mechagnome.Provider.Frames.RoundTrip.{bytes_of, IsOpen, receive-encode}

-- The letter `a`, an escape sequence that is cut short, and a newline.
abbrev colored : List ℕ
colored = 97 ∷ 0x1b ∷ b'[' ∷ 51 ∷ []

abbrev after_color : List ℕ
after_color = b'm' ∷ 98 ∷ 10 ∷ []

feed-IsHarmless_example : All IsHarmless (feed text colored).0
feed-IsHarmless_example = feed-IsHarmless text colored

-- Red, and a title for the window.
feed-removes_example :
    feed text ((104 ∷ []) ++ ((0x1b ∷ b'[' ∷ 51 ∷ 49 ∷ 109 ∷ []) ++ (105 ∷ 10 ∷ [])))
    ≡ (104 ∷ 105 ∷ 10 ∷ [], text)
unfolding is_plain
feed-removes_example =
    feed-removes (104 ∷ []) (0x1b ∷ b'[' ∷ 51 ∷ 49 ∷ 109 ∷ []) (105 ∷ 10 ∷ []) (refl, tt)
      (control (51 ∷ 49 ∷ []) 109 (inl (omega arith), (inl (omega arith), tt))
        (omega arith, omega arith))
      (refl, (refl, tt))

-- JSON as its own bytes.
abbrev dumps : List ℕ → Option (List ℕ)
dumps bytes = some bytes

abbrev loads : List ℕ → Option (List ℕ)
loads bytes = some bytes

abbrev frame : List ℕ
frame = 0 ∷ 0 ∷ 0 ∷ 2 ∷ 123 ∷ 125 ∷ []

frame_ok : encode_frame dumps loads (123 ∷ 125 ∷ []) ≡ done frame
unfolding encode_frame pack
frame_ok = refl

abbrev chunks : Stream
chunks = (0 ∷ 0 ∷ 0 ∷ []) ∷ (2 ∷ 123 ∷ []) ∷ (125 ∷ 7 ∷ []) ∷ []

receive-encode_example :
    (left : Stream) × (receive_frame dumps loads true chunks ≡ done (some (123 ∷ 125 ∷ []), left))
    × (bytes_of left ≡ 7 ∷ [])
    × IsOpen left
receive-encode_example =
    receive-encode dumps loads (123 ∷ 125 ∷ []) frame (7 ∷ []) true chunks frame_ok
      (λ bytes h. sym h) refl (refl, (refl, (refl, tt)))

abbrev pub host : Host
host = record {
  dumps = λ j. none;
  same_json = λ a b. true;
  parse_mains = λ source. none;
  path_name = λ cwd. "my project";
  digest = λ cwd. "0123abcd";
  shipped = λ name. record { description = ""; input_schema = Json.object Fields.end; source = "" };
}

digest_named : all_of is_name_char (codes (host.digest "/home/me/my project")) ≡ true
unfolding is_name_char
digest_named = refl

digest_long : length (codes (host.digest "/home/me/my project")) ≡ 8
digest_long = refl

default_name-is_toolbox_name_example :
    is_toolbox_name (default_name host "/home/me/my project") ≡ true
default_name-is_toolbox_name_example =
    default_name-is_toolbox_name host "/home/me/my project" digest_named digest_long

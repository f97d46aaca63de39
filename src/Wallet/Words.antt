-- ===== src/Wallet/Words.antt =====
-- The list WORDS of src/bin/wallet.rs.
use Prim.Native.String.{String}
use cipher_x.Prelude.{List, [], ◌∷◌, Bytes, map}
use cipher_x.Std.Encoding.{ascii}

word_list : List String
word_list =
    "abandon" ∷ "ability" ∷ "able" ∷ "about" ∷ "above" ∷ "absent" ∷ "absorb" ∷ "abstract" ∷ "absurd"
    ∷ "abuse" ∷ "access" ∷ "accident" ∷ "account" ∷ "accuse" ∷ "achieve" ∷ "acid" ∷ "acoustic"
    ∷ "acquire" ∷ "across" ∷ "act" ∷ "action" ∷ "actor" ∷ "actress" ∷ "actual" ∷ "adapt" ∷ "add"
    ∷ "addict" ∷ "address" ∷ "adjust" ∷ "admit" ∷ "adult" ∷ "advance" ∷ "advice" ∷ "aerobic"
    ∷ "afford" ∷ "afraid" ∷ "again" ∷ "agent" ∷ "agree" ∷ "ahead" ∷ "aim" ∷ "air" ∷ "airport"
    ∷ "aisle" ∷ "alarm" ∷ "album" ∷ "alcohol" ∷ "alert" ∷ "alien" ∷ "all" ∷ "alley" ∷ "allow"
    ∷ "almost" ∷ "alone" ∷ "alpha" ∷ "already" ∷ "also" ∷ "alter" ∷ "always" ∷ "amateur" ∷ "amazing"
    ∷ "among" ∷ "amount" ∷ "amused" ∷ "analyst" ∷ "anchor" ∷ "ancient" ∷ "anger" ∷ "angle" ∷ "angry"
    ∷ "animal" ∷ "ankle" ∷ "announce" ∷ "annual" ∷ "another" ∷ "answer" ∷ "antenna" ∷ "antique"
    ∷ "anxiety" ∷ "any" ∷ "apart" ∷ "apology" ∷ "appear" ∷ "apple" ∷ "approve" ∷ "april" ∷ "arch"
    ∷ "area" ∷ "argue" ∷ "arm" ∷ "army" ∷ "around" ∷ "arrange" ∷ "arrest" ∷ "arrive" ∷ "arrow"
    ∷ "art" ∷ "artefact" ∷ "artist" ∷ "artwork" ∷ "ask" ∷ "aspect" ∷ "assault" ∷ "asset" ∷ "assist"
    ∷ "assume" ∷ "asthma" ∷ "athlete" ∷ "atom" ∷ "attack" ∷ "attend" ∷ "attitude" ∷ "attract"
    ∷ "auction" ∷ "audit" ∷ "august" ∷ "aunt" ∷ "author" ∷ "auto" ∷ "autumn" ∷ "average" ∷ "avocado"
    ∷ "avoid" ∷ "awake" ∷ "aware" ∷ "away" ∷ "awesome" ∷ "awful" ∷ "awkward" ∷ "axis" ∷ "baby"
    ∷ "balance" ∷ "bamboo" ∷ "banana" ∷ "banner" ∷ "barely" ∷ "bargain" ∷ "barrel" ∷ "base"
    ∷ "basic" ∷ "basket" ∷ "battle" ∷ "beach" ∷ "bean" ∷ "beauty" ∷ "because" ∷ "become" ∷ "beef"
    ∷ "before" ∷ "begin" ∷ "behave" ∷ "behind" ∷ "believe" ∷ "below" ∷ "belt" ∷ "bench" ∷ "benefit"
    ∷ "best" ∷ "betray" ∷ "better" ∷ "between" ∷ "beyond" ∷ "bicycle" ∷ "bid" ∷ "bike" ∷ "bind"
    ∷ "biology" ∷ "bird" ∷ "birth" ∷ "bitter" ∷ "black" ∷ "blade" ∷ "blame" ∷ "blanket" ∷ "blast"
    ∷ "bleak" ∷ "bless" ∷ "blind" ∷ "blood" ∷ "blossom" ∷ "blouse" ∷ "blue" ∷ "blur" ∷ "blush"
    ∷ "board" ∷ "boat" ∷ "body" ∷ "boil" ∷ "bomb" ∷ "bone" ∷ "bonus" ∷ "book" ∷ "boost" ∷ "border"
    ∷ "boring" ∷ "borrow" ∷ "boss" ∷ "bottom" ∷ "bounce" ∷ "box" ∷ "boy" ∷ "bracket" ∷ "brain"
    ∷ "brand" ∷ "brass" ∷ "brave" ∷ "bread" ∷ "breeze" ∷ "brick" ∷ "bridge" ∷ "brief" ∷ "bright"
    ∷ "bring" ∷ "brisk" ∷ "broccoli" ∷ "broken" ∷ "bronze" ∷ "broom" ∷ "brother" ∷ "brown" ∷ "brush"
    ∷ "bubble" ∷ "buddy" ∷ "budget" ∷ "buffalo" ∷ "build" ∷ "bulb" ∷ "bulk" ∷ "bullet" ∷ "bundle"
    ∷ "bunker" ∷ "burden" ∷ "burger" ∷ "burst" ∷ "bus" ∷ "business" ∷ "busy" ∷ "butter" ∷ "buyer"
    ∷ "buzz" ∷ "cabbage" ∷ "cabin" ∷ "cable" ∷ "cactus" ∷ "cage" ∷ "cake" ∷ "call" ∷ "calm"
    ∷ "camera" ∷ "camp" ∷ "can" ∷ "canal" ∷ "cancel" ∷ "candy" ∷ "cannon" ∷ "canoe" ∷ []

unfoldable pub words : List Bytes
unfolding word_list
words = map ascii word_list

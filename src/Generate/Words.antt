-- ===== src/Generate/Words.antt =====
-- The word lists and the alphabet of src/generate.cpp.
use shadyurl.Common.{String, List, [], ◌∷◌, Bytes, codes}

abbrev pub nsfw : List String
nsfw =
    "419-scam" ∷ "420" ∷ "500-dollar-cash-prize" ∷ "69" ∷ "abuse" ∷ "adblock-bypass" ∷ "ads"
    ∷ "advert" ∷ "ambien" ∷ "anarchist-police-takeover" ∷ "anarchy" ∷ "antifa" ∷ "ass"
    ∷ "ass-beating" ∷ "audio" ∷ "bad-mixtape" ∷ "badonkadonk" ∷ "bank-transfer" ∷ "bbw" ∷ "beatdown"
    ∷ "beating-women" ∷ "big-bang" ∷ "big-cash-prize" ∷ "big-cocks" ∷ "big-milf" ∷ "big-willie"
    ∷ "bitcoin-2x" ∷ "bitcoin-cash-paydirt" ∷ "bitcoin-miner" ∷ "bribe-your-boss-legally"
    ∷ "buproprion" ∷ "cash" ∷ "chop" ∷ "cialis" ∷ "cocaine" ∷ "crack" ∷ "crime-tips" ∷ "crypto"
    ∷ "daesh" ∷ "darkweb" ∷ "detector" ∷ "diazepam" ∷ "doctor" ∷ "dog-sex" ∷ "domestic-abuse"
    ∷ "donkey-cock" ∷ "drive-by-shooting" ∷ "drugs" ∷ "effexor" ∷ "etherium-multiplier" ∷ "execute"
    ∷ "fake" ∷ "fap" ∷ "fappening" ∷ "final" ∷ "flame" ∷ "flash" ∷ "gangbang" ∷ "gmail" ∷ "goatse"
    ∷ "gone-wild" ∷ "gps" ∷ "gps-location" ∷ "gun-fight" ∷ "hacker" ∷ "he-dies" ∷ "he-fux-her"
    ∷ "heroin" ∷ "homeless-death" ∷ "homeless-man" ∷ "homeless-woman" ∷ "hood-shooting"
    ∷ "horse-sex" ∷ "hotmail" ∷ "how-to-steal" ∷ "how-to-win" ∷ "huge-cash-prize"
    ∷ "i-make-2000-week-sitting-at-home" ∷ "install" ∷ "internet" ∷ "interview" ∷ "ip-finder"
    ∷ "ip-hijacker" ∷ "ip-stealer" ∷ "isis" ∷ "jailbait" ∷ "java" ∷ "journalist" ∷ "keygen"
    ∷ "keylog" ∷ "keylogger" ∷ "knife-fight" ∷ "levitra" ∷ "lexapro" ∷ "locator" ∷ "loli"
    ∷ "lolicon" ∷ "lorazepam" ∷ "lsd" ∷ "male-enhancement" ∷ "malware" ∷ "marijuana" ∷ "milf-69"
    ∷ "mine-coins-for-free" ∷ "mommy-milkers" ∷ "monster-erection" ∷ "my-tits-are-legend"
    ∷ "no-holds-barred-beatdown" ∷ "password" ∷ "penetration" ∷ "penis-enlargement" ∷ "petit-milf"
    ∷ "phishing" ∷ "physical-removal" ∷ "pig-sex" ∷ "pirated-podcasts" ∷ "pirated-movies"
    ∷ "pirated-music" ∷ "pirated-shows" ∷ "pizzagate" ∷ "popup" ∷ "prozac" ∷ "pussy" ∷ "pwn"
    ∷ "qanon" ∷ "rat-sex" ∷ "risperidol" ∷ "root" ∷ "scam" ∷ "secret" ∷ "seroquel" ∷ "sex"
    ∷ "sexwithcats" ∷ "sexwithdogs" ∷ "she-dies" ∷ "she-fux-him" ∷ "shit" ∷ "shooting"
    ∷ "shoplifting" ∷ "snuff" ∷ "sound" ∷ "spam" ∷ "spyware" ∷ "steal" ∷ "stoned"
    ∷ "stoned-for-adultery" ∷ "subway-death" ∷ "taliban-interview" ∷ "taliban-meetup"
    ∷ "taliban-recruiter" ∷ "terrorist" ∷ "the-donald" ∷ "they-hurt-her" ∷ "tighten-my-pussy"
    ∷ "torrent" ∷ "trojan" ∷ "underground-death" ∷ "unlocker" ∷ "viagra" ∷ "video" ∷ "virus"
    ∷ "weed" ∷ "weight-loss" ∷ "wet-pussy" ∷ "wife-pussy" ∷ "what-they-dont-want-u-2-know"
    ∷ "woman-beaten" ∷ "woman-gets-stoned" ∷ "worldstar-fight" ∷ "youtube-download" ∷ []

abbrev pub ext : List String
ext =
    ".avi" ∷ ".bat" ∷ ".csv" ∷ ".divx" ∷ ".doc" ∷ ".docx" ∷ ".exe" ∷ ".gif" ∷ ".ini" ∷ ".jpg"
    ∷ ".m4a" ∷ ".mkv" ∷ ".mov" ∷ ".mp3" ∷ ".mp4" ∷ ".pdf" ∷ ".png" ∷ ".ppt" ∷ ".txt" ∷ ".xls" ∷ []

abbrev pub charlist : Bytes
charlist = codes "abcdefghijklmnopqrstuvwxyzABCDEFGHIJKLMNOPQRSTUVWXYZ0123456789-_"

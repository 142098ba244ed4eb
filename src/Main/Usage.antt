-- ===== src/Main/Usage.antt =====
-- src/bdremoteng.c: the text of usage, and the options that it describes. VERSION is the build's.
pub mod Options
use bdremote_ng.Prelude.{
  ℕ, Bool, Option, none, some, List, [], ◌∷◌, ◌++◌, get_or, ◌==◌, ◌&&◌, if◌then◌else◌,
}
use bdremote_ng.Text.{CString, codes}

-- the second printf
unfoldable pub synopsis : CString
synopsis = codes "Usage:\n" ++ (codes "\tbdremoteng [options]\n" ++ (codes "\n"))

-- the third printf
unfoldable pub first_options : CString
first_options =
    codes "Options:\n"
    ++ (codes "\t-p <port>            Set port number for incoming LIRCD connections.\n"
        ++ (codes "\t-t <timeout>         Set disconnect timeout for BD remote (in seconds).\n"
            ++ (codes "\t-i <address>         BT address of interface to use.\n"
                ++ (codes "\t-a <address>         BT address of remote.\n"
                    ++ (codes "\t                     For example: -a 00:19:C1:5A:F1:3F. \n"
                        ++ (codes
                              "\t-b <script>          Execute <script> when battery info changes.\n"
                            ++ (codes
                                "\t                     Arguments: <prev charge> <current charge>, both in percent.\n")))))))

-- the fourth printf
unfoldable pub last_options : CString
last_options =
    codes "\t-r <rate>            Key repeat rate. Generate <rate> repeats per second.\n"
    ++ (codes "\t-e <num>             Wait <num> ms before repeating a key.\n"
        ++ (codes "\t-R <suffix>          Auto-generate release events with appended <suffix>.\n"
            ++ (codes "\t-l                   Follow LIRC namespace for the key names.\n"
                ++ (codes
                      "\t-E                   Make output available through a Linux event device.\n"
                    ++ (codes "\t-u <username>        Change UID to the UID of this user.\n"
                        ++ (codes "\t-g <group>           Change GID to the GID of this group.\n"
                            ++ (codes "\t-f <filename>        Write log to <filename>.\n"
                                ++ (codes "\t-d                   Enable debug.\n"
                                    ++ (codes
                                          "\t-n                   Don't fork daemon to background.\n"
                                        ++ (codes "\t-h, --help           Display help.\n"
                                            ++ (codes "\n")))))))))))

-- usage, all that it prints
unfoldable pub usage : (version : CString) → CString
usage version =
    codes "bdremoteng - Sony BD Remote helper daemon version "
    ++ (version ++ (codes "\n\n" ++ (synopsis ++ (first_options ++ last_options))))

-- A line of the text that begins with a tab and a dash describes an option: its letter, and whether
-- an argument in angle brackets follows.
unfoldable pub described : CString → List (ℕ × Bool)
described [] = []
described (c ∷ s) =
    let rest = described s in
    if c == 9 && get_or s 0 0 == b'-' then (get_or s 1 0, get_or s 3 0 == b'<') ∷ rest else rest

-- whether the text describes an option, and with an argument
abbrev pub entry : ℕ → List (ℕ × Bool) → Option Bool
entry opt [] = none
entry opt (e ∷ es) = if opt == e.0 then some e.1 else entry opt es

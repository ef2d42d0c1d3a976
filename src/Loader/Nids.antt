-- ===== src/Loader/Nids.antt =====
-- The table of known names of crates/core/src/loader/symbols.rs, `lookup_known_nid`, in the groups of the source.
pub mod Found
mod Tests
use anotherps4_emulator.Common.{ℕ, List, [], ◌∷◌, ◌++◌, Option, none, some, ◌==◌, if◌then◌else◌}
use anotherps4_emulator.Common.Text.{Str, str_eq, codes}
use Prim.Native.String.{String}

abbrev pub Table : Type 0
Table = List (Str × Str)

abbrev entry : String → String → Str × Str
entry nid name = (codes nid, codes name)

abbrev c_runtime_libcinternal_nids : Table
c_runtime_libcinternal_nids =
    entry "bzQExy189ZI" "_init_env"
    ∷ entry "8G2LB+A3rzg" "atexit"
    ∷ entry "tsvEmnenz48" "__cxa_atexit"
    ∷ entry "3GPpjQdAMTw" "__cxa_guard_acquire"
    ∷ entry "9rAeANT2tyE" "__cxa_guard_release"
    ∷ entry "fJnpuVVBbKk" "_Znwm"
    ∷ entry "z+P+xCnWLBk" "_ZdlPv"
    ∷ entry "gQX+4GDQjpM" "malloc"
    ∷ entry "tIhsqj0qsFE" "free"
    ∷ entry "XKRegsFpEpk" "catchReturnFromMain"
    ∷ entry "uMei1W9uyNo" "exit"
    ∷ []

abbrev string_memory_libc_nids : Table
string_memory_libc_nids =
    entry "Q3VBxCXhUHs" "memcpy"
    ∷ entry "8zTFvBIAIN8" "memset"
    ∷ entry "kiZSXIWd9vg" "strcpy"
    ∷ entry "j4ViWNHEgww" "strlen"
    ∷ entry "Ls4tzzhimqQ" "strcat"
    ∷ entry "Ovb2dSJOAuE" "strcmp"
    ∷ entry "DfivPArhucg" "memcmp"
    ∷ []

abbrev math_nids : Table
math_nids =
    entry "cpCOXWMgha0" "rand"
    ∷ entry "ZtjspkJQ+vw" "sinf"
    ∷ entry "ZE6RNL+eLbk" "tanf"
    ∷ entry "GZWjF-YIFFk" "asinf"
    ∷ entry "QI-x0SL8jhw" "acosf"
    ∷ entry "EH-x713A99c" "atan2f"
    ∷ []

abbrev i_o_libc_nids : Table
i_o_libc_nids =
    entry "hcuQgD53UxM" "printf"
    ∷ entry "YQ0navp+YIc" "puts"
    ∷ entry "xeYO4u7uyJ0" "fopen"
    ∷ entry "lbB+UlZqVG0" "fread"
    ∷ entry "uodLYyUip20" "fclose"
    ∷ entry "rQFVBXp-Cxg" "fseek"
    ∷ entry "Qazy8LmXTvw" "ftell"
    ∷ entry "MpxhMh8QFro" "fwrite"
    ∷ entry "KdP-nULpuGw" "fgets"
    ∷ entry "Q2V+iqvjgC0" "vsnprintf"
    ∷ []

abbrev kernel_memory_nids : Table
kernel_memory_nids =
    entry "B+vc2AO2Zrc" "sceKernelAllocateMainDirectMemory"
    ∷ entry "pO96TwzOm5E" "sceKernelGetDirectMemorySize"
    ∷ entry "WslcK1FQcGI" "sceKernelIsNeoMode"
    ∷ entry "rTXw65xmLIA" "sceKernelAllocateDirectMemory"
    ∷ entry "L-Q3LEjIbgA" "sceKernelMapDirectMemory"
    ∷ entry "cQke9UuBQOk" "sceKernelMunmap"
    ∷ entry "MBuItvba6z8" "sceKernelReleaseDirectMemory"
    ∷ []

abbrev kernel_threading_sync_nids : Table
kernel_threading_sync_nids =
    entry "2Of0f+3mhhE" "scePthreadMutexDestroy"
    ∷ entry "cmo1RIYva9o" "scePthreadMutexInit"
    ∷ entry "9UK1vLZQft4" "scePthreadMutexLock"
    ∷ entry "tn3VlD0hG60" "scePthreadMutexUnlock"
    ∷ entry "6UgtwV+0zb4" "scePthreadCreate"
    ∷ entry "D0OdFMjp46I" "sceKernelCreateEqueue"
    ∷ entry "jpFjmgAC5AE" "sceKernelDeleteEqueue"
    ∷ []

abbrev video_out_nids : Table
video_out_nids =
    entry "Up36PTk687E" "sceVideoOutOpen"
    ∷ entry "CBiu4mCE1DA" "sceVideoOutSetFlipRate"
    ∷ entry "uquVH4-Du78" "sceVideoOutClose"
    ∷ entry "6kPnj51T62Y" "sceVideoOutGetResolutionStatus"
    ∷ entry "i6-sR91Wt-4" "sceVideoOutSetBufferAttribute"
    ∷ entry "w3BY+tAEiQY" "sceVideoOutRegisterBuffers"
    ∷ []

abbrev gnm_gpu_nids : Table
gnm_gpu_nids =
    entry "b0xyllnVY-I" "sceGnmAddEqEvent"
    ∷ entry "PVT+fuoS9gU" "sceGnmDeleteEqEvent"
    ∷ entry "yb2cRhagD1I" "sceGnmDrawInitDefaultHardwareState350"
    ∷ entry "1qXLHIpROPE" "sceGnmInsertWaitFlipDone"
    ∷ []

abbrev pad_controller_nids : Table
pad_controller_nids =
    entry "hv1luiJrqQM" "scePadInit"
    ∷ entry "xk0AcarP3V4" "scePadOpen"
    ∷ entry "6ncge5+l5Qs" "scePadClose"
    ∷ entry "YndgXqQVV7c" "scePadReadState"
    ∷ []

abbrev user_service_nids : Table
user_service_nids =
    entry "j3YMu1MVNNo" "sceUserServiceInitialize"
    ∷ entry "bwFjS+bX9mA" "sceUserServiceTerminate"
    ∷ entry "CdWp0oHWGr0" "sceUserServiceGetInitialUser"
    ∷ entry "yH17Q6NWtVg" "sceUserServiceGetEvent"
    ∷ entry "fPhymKNvK-A" "sceUserServiceGetLoginUserIdList"
    ∷ []

abbrev system_services_nids : Table
system_services_nids =
    entry "Vo5V8KAwCmk" "sceSystemServiceHideSplashScreen"
    ∷ entry "fZo48un7LK4" "sceSystemServiceParamGetInt"
    ∷ entry "656LMQSrg6U" "sceSystemServiceReceiveEvent"
    ∷ entry "rPo6tV8D9bM" "sceSystemServiceGetStatus"
    ∷ entry "g8cM39EUZ6o" "sceSysmoduleLoadModule"
    ∷ entry "uoUpLGNkygk" "sceCommonDialogInitialize"
    ∷ []

abbrev save_data_nids : Table
save_data_nids =
    entry "TywrFKCoLGY" "sceSaveDataInitialize3"
    ∷ entry "yKDy8S5yLA0" "sceSaveDataTerminate"
    ∷ entry "KK3Bdg1RWK0" "sceSaveDataDialogUpdateStatus"
    ∷ entry "yEiJ-qqr6Cg" "sceSaveDataDialogGetResult"
    ∷ []

abbrev np_trophy_nids : Table
np_trophy_nids =
    entry "A2CQ3kgSopQ" "sceNpSetContentRestriction"
    ∷ entry "Ec63y59l9tw" "sceNpSetNpTitleId"
    ∷ entry "GWnWQNXZH5M" "sceNpScoreCreateNpTitleCtxA"
    ∷ entry "q7U6tEAQf7c" "sceNpTrophyCreateHandle"
    ∷ entry "TJCAxto9SEU" "sceNpTrophyRegisterContext"
    ∷ entry "XbkjbobZlCY" "sceNpTrophyCreateContext"
    ∷ []

abbrev screenshot_nids : Table
screenshot_nids = entry "73WQ4Jj0nJI" "sceScreenShotSetOverlayImageWithOrigin" ∷ []

abbrev audio_out_nids : Table
audio_out_nids = entry "JfEPXVxhFqA" "sceAudioOutInit" ∷ entry "ekNvsT22rsY" "sceAudioOutOpen" ∷ []

abbrev pub known_nids : Table
known_nids =
    c_runtime_libcinternal_nids ++ string_memory_libc_nids ++ math_nids ++ i_o_libc_nids
    ++ kernel_memory_nids ++ kernel_threading_sync_nids ++ video_out_nids ++ gnm_gpu_nids
    ++ pad_controller_nids ++ user_service_nids ++ system_services_nids ++ save_data_nids
    ++ np_trophy_nids ++ screenshot_nids ++ audio_out_nids

-- The part before the first `#`.
unfoldable pub before_hash : Str → Str
before_hash [] = []
before_hash (c ∷ s) = if c == 35 then [] else c ∷ before_hash s

-- The arms of the match, in order.
unfoldable pub find_nid : Table → Str → Option Str
find_nid [] nid = none
find_nid ((k, name) ∷ rest) nid = if str_eq k nid then some name else find_nid rest nid

unfoldable pub lookup_known_nid : Str → Option Str
lookup_known_nid nid = find_nid known_nids (before_hash nid)

-- ===== src/Config/Document/Fallback.antt =====
-- src/config.c: the text of `facet_config_make_fallback`.
use facet_os.Prelude.{◌++◌, codes, Bytes}
use facet_os.Config.Values.{Run}
use facet_os.Config.Schema.Records.{SystemConfig}
use facet_os.Config.Document.{facet_config_parse}

-- the literal `fallback`
abbrev pub fallback : Bytes
fallback =
    codes "[facet]\n"
    ++ codes "version = 1\n"
    ++ codes "seat_initrd = \"dominit0.initrd\"\n"
    ++ codes "[[logging_sinks]]\n"
    ++ codes "name = \"bochs-debug\"\n"
    ++ codes "type = \"platform.x86.bochs-debug\"\n"
    ++ codes "required = true\n"
    ++ codes "[[authentication_sources]]\n"
    ++ codes "name = \"system\"\n"
    ++ codes "provider_domain = 0\n"
    ++ codes "type = \"local\"\n"
    ++ codes "required = true\n"
    ++ codes "[[users]]\n"
    ++ codes "name = \"root\"\n"
    ++ codes "password_hash = \"$5$facet$j7FgoXidvJl10CTaW0nguGP3ZnvKnqS3/IHmDVliPQ9\"\n"
    ++ codes "admin = true\n"
    ++ codes "uid = 0\n"
    ++ codes "gid = 0\n"
    ++ codes "home_path = \"/root\"\n"
    ++ codes "posix_shell = \"/bin/sh\"\n"
    ++ codes "[[users]]\n"
    ++ codes "name = \"user\"\n"
    ++ codes "password_hash = \"$5$facet$j7FgoXidvJl10CTaW0nguGP3ZnvKnqS3/IHmDVliPQ9\"\n"
    ++ codes "admin = false\n"
    ++ codes "uid = 1000\n"
    ++ codes "gid = 1000\n"
    ++ codes "home_path = \"/home/user\"\n"
    ++ codes "posix_shell = \"/bin/sh\"\n"
    ++ codes "[[seats]]\n"
    ++ codes "name = \"seat0\"\n"
    ++ codes "type = \"serial\"\n"
    ++ codes "server = \"/FacetOS/seat-server-serial\"\n"
    ++ codes "terminals = [\"ttyS0\"]\n"
    ++ codes "[[seats]]\n"
    ++ codes "name = \"seat1\"\n"
    ++ codes "type = \"local\"\n"
    ++ codes "server = \"/FacetOS/seat-server-pc-console\"\n"
    ++ codes "terminals = [\"tty1\", \"tty2\", \"tty3\", \"tty4\", \"tty5\"]\n"
    ++ codes "[[domains]]\n"
    ++ codes "id = 0\n"
    ++ codes "name = \"system\"\n"
    ++ codes "personality = \"native\"\n"
    ++ codes "domain_manager = \"local\"\n"
    ++ codes "initrd = \"system.initrd\"\n"
    ++ codes "authentication_source = \"system\"\n"
    ++ codes "logging_sinks = [{ name = \"bochs-debug\", level = \"debug\" }]\n"
    ++ codes "terminals = ["
    ++ codes
        "{ terminal = \"seat0.ttyS0\", view = \"native\", initial_process = \"/FacetOS/FacetLogin\" },"
    ++ codes
        "{ terminal = \"seat1.tty1\", view = \"native\", initial_process = \"/FacetOS/FacetLogin\" },"
    ++ codes "{ terminal = \"seat1.tty2\", view = \"posix\", initial_process = \"/bin/login\" }]\n"
    ++ codes "[[domains]]\n"
    ++ codes "id = 1\n"
    ++ codes "name = \"posix\"\n"
    ++ codes "personality = \"posix\"\n"
    ++ codes "domain_manager = \"local\"\n"
    ++ codes "pid1 = \"/sbin/init\"\n"
    ++ codes "initrd = \"child.initrd\"\n"
    ++ codes "authentication_source = \"system\"\n"
    ++ codes "logging_sinks = [{ name = \"bochs-debug\", level = \"info\" }]\n"
    ++ codes "terminals = [{ terminal = \"seat1.tty3\", device = \"tty3\" }]\n"

-- `facet_config_make_fallback`
unfoldable pub facet_config_make_fallback : Run SystemConfig
facet_config_make_fallback = facet_config_parse fallback

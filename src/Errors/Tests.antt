-- ===== src/Errors/Tests.antt =====
-- Texts of errors of src/error.rs.
use openrussh_client.Prelude.{Text, codes, ◌≡◌, refl, some}
use openrussh_client.Auth.Reply.{load_cert}
use openrussh_client.Connect.{auth_error}
use openrussh_client.Errors.{Shows, connect_text}
use openrussh_client.Errors.Reading.{read_connect, written, read_connect-connect_text}

abbrev as_is : Shows Text Text Text
as_is = record { debug_handler = λ e. e; show_russh = λ e. e; show_maker = λ e. e }

no_file :
    connect_text as_is (auth_error (load_cert (codes "no file")))
    ≡ codes "Error happened while authenticating: Could not load CertificateFile: no file"
unfolding connect_text
no_file = refl

read_connect-connect_text_example :
    read_connect (connect_text as_is (auth_error (load_cert (codes "no file"))))
    ≡ some (written as_is (auth_error (load_cert (codes "no file"))))
read_connect-connect_text_example =
    read_connect-connect_text as_is (auth_error (load_cert (codes "no file")))
